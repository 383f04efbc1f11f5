-- ===== src/Daemon/Reader/Refines.antt =====
-- The loop over the bytes handles the kernel's events one by one.
use watch_it.Base.{
  ℕ, zero, suc, ◌+◌, ◌<◌, ◌≡◌, refl, sym, ap, ◌∙◌, true, List, [], ◌∷◌, ◌++◌, All, Option, some,
  length, length-append, drop, drop-add, drop-length, arith, ltb, lt→ltb, if◌then◌else◌, if-rule,
  Option-cases, inl, inr,
}
use watch_it.Handling.Types.{State, Env}
use watch_it.Daemon.Table.{Table, find_in_map}
use watch_it.Daemon.Reader.{
  InotifyEvent, event_at, handle_inotify, read_loop, get_event, sizeof_event,
}
use watch_it.Daemon.Reader.Wire.{
  KernelEvent, IsWellFormed, encode, encode_all, view, field_len, zeros, cstring-padded,
  length-zeros, event_at-numbers,
}

-- Handling events one by one, up to the first that cannot be added.
unfoldable pub handle_all : Env → Table → List KernelEvent → State → State
handle_all env table [] s = s
handle_all env table (e ∷ es) s =
    let (s', go_on) = handle_inotify env table (view e) s in
    let rest = handle_all env table es s' in if go_on then rest else s'

-- The name is not read where the event has none.
handle-nameless :
    (env : Env) (table : Table) (p q : InotifyEvent) (s : State)
    → p.wd ≡ q.wd
    → p.mask ≡ q.mask
    → p.len ≡ 0
    → q.len ≡ 0
    → handle_inotify env table p s ≡ handle_inotify env table q s
unfolding handle_inotify
handle-nameless env table p q s w m l k = elim (Option-cases (find_in_map p.wd table)) [
  | inl unknown ↦ ground (arith, unknown)
  | inr (tuple, e) ↦ ground (arith, e)
]

name-read :
    (e : KernelEvent) (rest : List ℕ)
    → IsWellFormed e
    → 0 < e.padding
    → (event_at (encode e rest)).name ≡ e.name
unfolding event_at
name-read e rest h more = cstring-padded e.name e.padding rest more h.name_bytes

handle-view :
    (env : Env) (table : Table) (e : KernelEvent) (rest : List ℕ) (s : State)
    → IsWellFormed e
    → handle_inotify env table (event_at (encode e rest)) s ≡ handle_inotify env table (view e) s
handle-view env table e rest s h =
    let (w, m, l) = event_at-numbers e rest h in
    elim h.ended [
      | inl (nameless, unpadded) ↦
          let empty : field_len e ≡ 0 = omega (arith, ap length nameless, unpadded) in
          handle-nameless env table (event_at (encode e rest)) (view e) s w m (l ∙ empty) empty
      | inr more ↦
          let n = name-read e rest h more in
          let same : event_at (encode e rest) ≡ view e = ground (arith, w, m, l, n) in
          ap (λ p. handle_inotify env table p s) same
    ]

after_event :
    (e : KernelEvent) (rest : List ℕ) → drop (sizeof_event + field_len e) (encode e rest) ≡ rest
after_event e rest =
    drop-add sizeof_event (field_len e) (encode e rest)
    ∙ drop-add (length e.name) e.padding (e.name ++ (zeros e.padding ++ rest))
    ∙ ap (drop e.padding) (drop-length e.name (zeros e.padding ++ rest))
    ∙ ap (λ n. drop n (zeros e.padding ++ rest)) (sym (length-zeros e.padding))
    ∙ drop-length (zeros e.padding) rest

length-encode :
    (e : KernelEvent) (rest : List ℕ)
    → length (encode e rest) ≡ sizeof_event + field_len e + length rest
length-encode e rest = omega (
  arith,
  length-append e.name (zeros e.padding ++ rest),
  length-append (zeros e.padding) rest,
  length-zeros e.padding,
)

module _ (env : Env) (table : Table) (buff : List ℕ) where
  -- A round at an event, by its outcome.
  pub loop-round :
      (fuel i : ℕ) (s : State)
      → ltb i (length buff) ≡ true
      → read_loop env table buff (suc fuel) i s ≡ (
          let (s', go_on) = handle_inotify env table (event_at (drop i buff)) s in
          if go_on
          then read_loop env table buff fuel (i + (sizeof_event + (event_at (drop i buff)).len)) s'
          else some s')
  unfolding read_loop
  loop-round fuel i s h = ground (arith, h)

  read_loop-handle_all :
      (fuel i : ℕ) (es : List KernelEvent) (s : State)
      → drop i buff ≡ encode_all es
      → i + length (encode_all es) ≡ length buff
      → All IsWellFormed es
      → length (encode_all es) < fuel
      → read_loop env table buff fuel i s ≡ some (handle_all env table es s)
  unfolding read_loop handle_all encode_all
  read_loop-handle_all zero i es s d l w f = absurd (omega arith)
  read_loop-handle_all (suc fuel) i [] s d l w f = ground arith
  read_loop-handle_all (suc fuel) i (e ∷ es) s d l w f =
      let rest : List ℕ = encode_all es in
      let inside : i < length buff = omega (arith, length-encode e rest) in
      let read = (event_at-numbers e rest w.0).2 in
      loop-round fuel i s (lt→ltb i (length buff) inside)
      ∙ rw (d, handle-view env table e rest s w.0, read)
          (if-rule (λ (r : Option State). r ≡ some (handle_all env table (e ∷ es) s))
            (handle_inotify env table (view e) s).1 _ _
            (λ more.
              read_loop-handle_all fuel (i + (sizeof_event + field_len e)) es _
                (drop-add i (sizeof_event + field_len e) buff
                  ∙ ap (drop (sizeof_event + field_len e)) d
                  ∙ after_event e rest)
                (omega (arith, length-encode e rest)) w.1 (omega (arith, length-encode e rest))
              ∙ ground (arith, more))
            (λ stop. ground (arith, stop)))

-- If the bytes that `read` returned are those of some well-formed events, `get_event` finishes, and
-- does what handling these events one by one does, up to the first that cannot be added: no event
-- is skipped, split or read twice.
pub get_event-handle_all :
    (env : Env) (table : Table) (es : List KernelEvent) (s : State)
    → All IsWellFormed es
    → get_event env table (some (encode_all es)) s ≡ some (handle_all env table es s)
unfolding get_event
get_event-handle_all env table es s w =
    read_loop-handle_all env table (encode_all es) (suc (length (encode_all es))) 0 es s refl
      (omega arith) w (omega arith)
