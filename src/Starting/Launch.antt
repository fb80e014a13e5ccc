-- ===== src/Starting/Launch.antt =====
-- The start of an application that has no runtime, from its container to its runtime. The result of
-- a part has the descriptors that nobody took over yet.
use qtapplicationmanager.Prelude.{
  ℕ, Bool, true, false, ◌&&◌, ◌||◌, not, String, str_eq, List, [], ◌∷◌, Option, none, some, is_some,
  ℤ, pos, negsuc, zero, suc, is_empty, ◌==◌, if◌then◌else◌,
}
use qtapplicationmanager.Starting.DebugWrapper.{Text}
use qtapplicationmanager.Starting.State.{
  Application, open_document, emit_activated, take_from_pool, delete_runtime_later, delete_runtime,
  delete_container, create_container, call_selection_function, write_note, set_application,
  new_runtime_created, watch_run_state, start_runtime, attach_runtime, when_container_is_ready,
  when_compositor_is_ready, Manager, World, Request, no_container_manager, Result, thrown, returned,
  call, set_current_runtime,
}

abbrev pub is_descriptor : ℤ → Bool
is_descriptor (pos n) = true
is_descriptor (negsuc n) = false

-- What the checks have found out.
pub record Plan : Type 0 where
  pub app : ℕ
  pub is_in_process : Bool
  pub has_redirections : Bool
  pub wrapper_command : List Text

abbrev pub open_documents : Request → Application → ℕ → Manager → Manager
open_documents r app rt m = elim r.document_url [
  | some url ↦ call (open_document rt url r.document_mime_type) m
  | none ↦ elim app.document_url [
    | some url ↦ call (open_document rt url r.document_mime_type) m
    | none ↦ m
  ]
]

-- The call of the runtime, which takes the application over when it was in the pool.
abbrev pub ask_runtime : Bool → ℕ → ℕ → Manager → Manager
ask_runtime true a rt m = set_current_runtime a (some rt) (call (attach_runtime rt a) m)
ask_runtime false a rt m = call (start_runtime rt) m

-- `doStartInContainer`. A runtime that does not start is deleted, which its application notices.
unfoldable pub do_start_in_container : World → ℕ → ℕ → Bool → Manager → Manager × Bool
do_start_in_container w a rt is_attached m =
    let asked = ask_runtime is_attached a rt m in
    if (if is_attached then w.attaches rt else w.starts rt)
    then (call (emit_activated a) asked, true)
    else (set_current_runtime a none (call (delete_runtime rt) asked), false)

-- `tryStartInContainer`, with the container of a runtime that is not in-process.
unfoldable pub try_start_in_container : World → ℕ → ℕ → Bool → Option ℕ → Manager → Manager × Bool
unfolding do_start_in_container
try_start_in_container w a rt is_attached none m = do_start_in_container w a rt is_attached m
try_start_in_container w a rt is_attached (some c) m =
    if w.is_container_ready c
    then do_start_in_container w a rt is_attached m
    else (call (when_container_is_ready c rt) m, true)

-- Once there is a runtime.
unfoldable pub start_runtime_of :
    World → Request → ℕ → ℕ → Bool → Option ℕ → Manager → Manager × Bool
unfolding try_start_in_container
start_runtime_of w r a rt is_attached container m =
    let opened = open_documents r (m.app_at a) rt (call (watch_run_state rt a) m) in
    if not (is_some container) || w.is_compositor_ready
    then try_start_in_container w a rt is_attached container opened
    else (call (when_compositor_is_ready rt a) opened, true)

abbrev pub delete_unused : Option ℕ → Manager → Manager
delete_unused none m = m
delete_unused (some c) m = call (delete_container c) m

-- `RuntimeFactory::create`. The container goes to the runtime's manager, which has it from then on.
unfoldable pub factory_create : World → ℕ → Option ℕ → Manager → Manager × Option ℕ
factory_create w a container m =
    let app = m.app_at a in
    if str_eq app.runtime_name "" || is_some app.current_runtime
    then (delete_unused container m, none)
    else elim (w.runtime_manager app.runtime_name) [
      | none ↦ (delete_unused container m, none)
      | some is_in_process ↦ elim w.created_runtime [
        | none ↦ (m, none)
        | some rt ↦ (set_current_runtime a (some rt) m, some rt)
      ]
    ]

-- A new runtime, and its start.
unfoldable pub create_and_start : World → Request → ℕ → Option ℕ → Manager → Manager × Bool
unfolding factory_create start_runtime_of
create_and_start w r a container m =
    let (created, rt) = factory_create w a container m in
    elim rt [
      | none ↦ (created, false)
      | some rt ↦ start_runtime_of w r a rt false container (call (new_runtime_created rt) created)
    ]

abbrev pub cannot_use_quick_launch : World → Plan → Application → Bool
cannot_use_quick_launch w p app =
    not (is_empty p.wrapper_command)
    || p.has_redirections
    || app.has_environment_variables
    || not (app.opengl_configuration == w.opengl_configuration)

-- What is in the quick launcher's pool: a container, and a runtime.
unfoldable pub look_in_pool : World → Plan → String → Manager → Manager × Option ℕ × Option ℕ
look_in_pool w p container_id m =
    let app = m.app_at p.app in
    elim w.quick_launcher [
      | none ↦ (m, none, none)
      | some take ↦
          let (c, rt) = take container_id app.runtime_name in
          if cannot_use_quick_launch w p app
          then (m, none, none)
          else (call (take_from_pool container_id app.runtime_name) m, c, rt)
    ]

-- By what was in the pool.
unfoldable pub launch_with :
    World → Request → Plan → String → Option ℕ → Option ℕ → Manager → Manager × List ℤ × Result
unfolding create_and_start start_runtime_of
launch_with w r p container_id (some c) (some rt) m =
    let (started, ok) =
      start_runtime_of w r p.app rt true (some c)
        (call (new_runtime_created rt) (call (set_application c p.app) m)) in
    (started, r.stdio_redirections, returned ok)
launch_with w r p container_id (some c) none m =
    let (started, ok) = create_and_start w r p.app (some c) (call (set_application c p.app) m) in
    (started, r.stdio_redirections, returned ok)
launch_with w r p container_id none (some rt) m =
    (call (delete_runtime_later rt) m, r.stdio_redirections, returned false)
launch_with w r p container_id none none m =
    let (c, left) = w.created_container container_id r.stdio_redirections in
    let asked = call (create_container container_id p.wrapper_command) m in
    elim c [
      | none ↦ (asked, left, returned false)
      | some c ↦
          let (started, ok) = create_and_start w r p.app (some c) asked in
          (started, left, returned ok)
    ]

abbrev pub selects : World → String → String → Bool
selects w key id =
    str_eq key "*" || (not (w.has_asterisk key) && str_eq key id) || w.wildcard_matches key id

-- The loop over the configuration, from the name that stands without it.
unfoldable pub configured_container : World → String → List (String × String) → String
configured_container w id [] = ""
configured_container w id ((key, value) ∷ rest) =
    if selects w key id then value else configured_container w id rest

unfoldable pub preselected : World → String → Manager → String
unfolding configured_container
preselected w id m =
    if is_empty m.container_selection
    then "process"
    else configured_container w id m.container_selection

-- The script function, when it is callable, has the last word.
abbrev pub ask_script :
    Option (String → String → String) → String → String → Manager → Manager × String
ask_script none id chosen m = (m, chosen)
ask_script (some choose) id chosen m =
    (call (call_selection_function id chosen) m, choose id chosen)

unfoldable pub select_container : World → String → Manager → Manager × String
unfolding preselected
select_container w id m = ask_script w.container_selection_function id (preselected w id m) m

-- `QList::value` with the default -1.
abbrev pub descriptor_at : List ℤ → ℕ → ℤ
descriptor_at [] n = negsuc 0
descriptor_at (fd ∷ fds) zero = fd
descriptor_at (fd ∷ fds) (suc n) = descriptor_at fds n

abbrev pub note_descriptor : List ℤ → ℤ
note_descriptor fds =
    if is_descriptor (descriptor_at fds 2) then descriptor_at fds 2 else descriptor_at fds 1

-- An in-process start tells whoever reads the redirected error or output channel that it is no use.
unfoldable pub warn_redirected : Bool → List ℤ → Manager → Manager
warn_redirected false fds m = m
warn_redirected true fds m =
    if is_descriptor (note_descriptor fds) then call (write_note (note_descriptor fds)) m else m

-- For an application that has no runtime.
unfoldable pub launch : World → Request → Plan → Manager → Manager × List ℤ × Result
unfolding create_and_start look_in_pool launch_with select_container warn_redirected
launch w r p m =
    if p.is_in_process
    then (let (started, ok) =
          create_and_start w r p.app none
            (warn_redirected p.has_redirections r.stdio_redirections m) in
        (started, r.stdio_redirections, returned ok))
    else (let (selected, container_id) = select_container w (m.app_at p.app).id m in
        if not (w.has_container_manager container_id)
        then (selected, r.stdio_redirections, thrown no_container_manager)
        else (let (looked, c, rt) = look_in_pool w p container_id selected in
            launch_with w r p container_id c rt looked))
