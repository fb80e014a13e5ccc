-- ===== src/Starting/Stopping.antt =====
-- `stopApplication`, `stopAllApplications` and `shutDown`, and the end of the runtimes.
use qtapplicationmanager.Prelude.{
  ℕ, suc, Bool, true, false, not, String, List, [], ◌∷◌, Option, none, some, is_some, any, filter,
  ◌==◌, if◌then◌else◌,
}
use qtapplicationmanager.Starting.State.{stop_runtime, Manager, call, from_id}

abbrev pub stop_current : Bool → Option ℕ → Manager → Manager
stop_current force_kill none m = m
stop_current force_kill (some rt) m = call (stop_runtime rt force_kill) m

unfoldable pub stop_application : String → Bool → Manager → Manager
stop_application id force_kill m = elim (from_id id m) [
  | none ↦ m
  | some a ↦ stop_current force_kill (m.app_at a).current_runtime m
]

-- The loop over the applications.
unfoldable pub stop_all : List ℕ → Bool → Manager → Manager
stop_all [] force_kill m = m
stop_all (a ∷ apps) force_kill m =
    stop_all apps force_kill (stop_current force_kill (m.app_at a).current_runtime m)

abbrev pub stop_all_applications : Bool → Manager → Manager
unfolding stop_all
stop_all_applications force_kill m = stop_all m.apps force_kill m

-- `watched` are the runtimes whose `destroyed` calls the helper; `finished` counts the emissions of
-- shutDownFinished.
pub record Shutdown : Type 0 where
  pub manager : Manager
  pub watched : List ℕ
  pub finished : ℕ

abbrev pub has_runtime : Manager → ℕ → Bool
has_runtime m a = is_some (m.app_at a).current_runtime

unfoldable pub shutdown_helper : Shutdown → Shutdown
shutdown_helper s =
    if any (has_runtime s.manager) s.manager.apps then s else record s { finished = suc s.finished }

abbrev pub with_current : Option ℕ → List ℕ → List ℕ
with_current none rts = rts
with_current (some rt) rts = rt ∷ rts

abbrev pub runtimes_of : Manager → List ℕ → List ℕ
runtimes_of m [] = []
runtimes_of m (a ∷ apps) = with_current (m.app_at a).current_runtime (runtimes_of m apps)

-- No runtime ends within its `stop`.
unfoldable pub shut_down : Manager → Shutdown
unfolding shutdown_helper stop_all
shut_down m = shutdown_helper (record {
  manager = stop_all m.apps false (record m { is_shutting_down = true });
  watched = runtimes_of m m.apps;
  finished = 0;
})

-- An application whose runtime is gone.
abbrev pub clear_in : ℕ → Option ℕ → Option ℕ
clear_in rt none = none
clear_in rt (some x) = if x == rt then none else some x

abbrev pub clear_runtime : ℕ → Manager → Manager
clear_runtime rt m = record m {
  app_at = λ a. record (m.app_at a) { current_runtime = clear_in rt (m.app_at a).current_runtime };
}

-- A runtime that ends leaves its application first, and is destroyed later.
pub data End : Type 0 where
  runtime_finishes : ℕ → End
  runtime_destroyed : ℕ → End

unfoldable pub end_step : End → Shutdown → Shutdown
unfolding shutdown_helper
end_step (runtime_finishes rt) s = record s { manager = clear_runtime rt s.manager }
end_step (runtime_destroyed rt) s =
    let gone = record s { manager = clear_runtime rt s.manager } in
    if any (λ w. w == rt) s.watched
    then shutdown_helper (record gone { watched = filter (λ w. not (w == rt)) s.watched })
    else gone

unfoldable pub end_all : List End → Shutdown → Shutdown
end_all [] s = s
end_all (e ∷ ends) s = end_all ends (end_step e s)
