-- ===== src/Handling/Consumer/Visits.antt =====
-- The two halves of a visit, branch by branch.
use watch_it.Base.{ℕ, ◌≡◌, true, false, arith}
use watch_it.Handling.Types.{State, Env, FileList}
use watch_it.Handling.Clock.{has_open_past_delay}
use watch_it.Handling.Files.{is_valid_close}
use watch_it.Handling.Commands.{execute_open_event, execute_close_event}
use watch_it.Handling.Consumer.{Visit, visit_open, visit_close}

module _ (env : Env) (cur : FileList) (w : ℕ) (s : State) where
  pub visit_open-fired :
      cur.file.has_fired_open ≡ true
      → visit_open env cur w s ≡ record { item = cur; cur_wait = w; state = s }
  unfolding visit_open
  visit_open-fired h = ground (arith, h)

  pub visit_open-past :
      cur.file.has_fired_open ≡ false
      → (has_open_past_delay env cur s).1 ≡ true
      → visit_open env cur w s ≡ record {
        item = record cur {
          file = (execute_open_event env cur.file (has_open_past_delay env cur s).0).1;
        };
        cur_wait = w;
        state = (execute_open_event env cur.file (has_open_past_delay env cur s).0).0;
      }
  unfolding visit_open
  visit_open-past h k = ground (arith, h, k)

module _ (env : Env) (v : Visit FileList) where
  pub visit_close-valid :
      v.item.file.has_fired_closed ≡ false
      → is_valid_close v.item ≡ true
      → v.item.file.has_fired_open ≡ true
      → visit_close env v ≡ record v {
        item = record { file = (execute_close_event env v.item.file v.state).1; remove = true };
        state = (execute_close_event env v.item.file v.state).0;
      }
  unfolding visit_close
  visit_close-valid a b c = ground (arith, a, b, c)

  pub visit_close-invalid : is_valid_close v.item ≡ false → visit_close env v ≡ v
  unfolding visit_close
  visit_close-invalid a = ground (arith, a)

  pub visit_close-unfired : v.item.file.has_fired_open ≡ false → visit_close env v ≡ v
  unfolding visit_close
  visit_close-unfired a = ground (arith, a)
