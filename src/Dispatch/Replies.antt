-- ===== src/Dispatch/Replies.antt =====
-- What the command thread and the connections of a session hear of a command.
use chromedriver.Base.{
  String, ◌≡◌, refl, ◌∙◌, Bool, Option, some, List, [], ◌∷◌, ◌++◌, map, if◌then◌else◌, ℤ, is_some,
  arith,
}
use chromedriver.Status.{Status}
use chromedriver.Dispatch.{
  Chrome, Session, Task, reply, close_connection, terminated, kill, refuse_command,
  notify_command_listeners, judge_result, terminate, run_command, execute_on_session_thread,
}

-- The sessions that are named in the replies, and the connections that are closed
unfoldable pub answered : {A : Type 0} → List (Task A) → List String
answered [] = []
answered (reply e value id w ∷ ts) = id ∷ answered ts
answered (_ ∷ ts) = answered ts

unfoldable pub closed : {A : Type 0} → List (Task A) → List ℤ
closed [] = []
closed (close_connection c ∷ ts) = c ∷ closed ts
closed (_ ∷ ts) = closed ts

module _ {B : Type 0} (api : Chrome B) where
  -- The identity and the connections of a session, which no command changes
  abbrev pub identity : Session B → String × List ℤ
  identity s = (s.id, s.connections)

  kill-identity : (message : String) (s : Session B) → identity (kill api message s).1 ≡ identity s
  unfolding kill
  kill-identity message s = ground arith

  refuse_command-identity :
      (name : String) (e : Status) (s : Session B)
      → identity (refuse_command api name e s).1 ≡ identity s
  unfolding refuse_command kill
  refuse_command-identity name e s = ground arith

  judge_result-identity :
      (e : Status) (s : Session B) → identity (judge_result api e s).1 ≡ identity s
  unfolding judge_result kill
  judge_result-identity e s = ground arith

  abbrev pub Keeps : List (String → Session B → Status × Session B) → Type 0
  Keeps [] = Unit
  Keeps (l ∷ ls) = ((name : String) (s : Session B) → identity (l name s).1 ≡ identity s) × Keeps ls

  notify-identity :
      (name : String) (ls : List (String → Session B → Status × Session B)) (s : Session B)
      → Keeps ls
      → identity (notify_command_listeners api name ls s).1 ≡ identity s
  unfolding notify_command_listeners
  notify-identity name [] s k = refl
  notify-identity name (l ∷ ls) s k =
      let r = l name s in
      ground
        (arith, refuse_command-identity name r.0 r.1, k.0 name s, notify-identity name ls r.1 k.1)

  answered-map :
      {A : Type 0} (cs : List ℤ) (ts : List (Task A))
      → answered (map (λ (c : ℤ). close_connection c) cs ++ ts) ≡ answered ts
  unfolding answered
  answered-map [] ts = refl
  answered-map (c ∷ cs) ts = ground (arith, answered-map cs ts)

  closed-map :
      {A : Type 0} (cs : List ℤ) (ts : List (Task A))
      → closed ts ≡ []
      → closed (map (λ (c : ℤ). close_connection c) cs ++ ts) ≡ cs
  unfolding closed
  closed-map [] ts h = h
  closed-map (c ∷ cs) ts h = ground (arith, closed-map cs ts h)

  terminate-tasks :
      (A : Type 0) (s : Session B)
      → (answered (terminate api {A = A} s) ≡ [])
        × (closed (terminate api {A = A} s) ≡ s.connections)
  unfolding terminate answered closed
  terminate-tasks A s =
      let rest : List (Task A) = if s.terminate_on_cmd then terminated ∷ [] else [] in
      (answered-map s.connections rest ∙ ground arith, closed-map s.connections rest (ground arith))

  module _ {A : Type 0} where
    run_command-identity :
        (command : Session B → Status × Option A × Session B) (w : Bool) (n : Status × Session B)
        → ((s : Session B) → identity (command s).2 ≡ identity s)
        → identity (run_command api command w n).2 ≡ identity n.1
    unfolding run_command
    run_command-identity command w n k =
        let r = command n.1 in ground (arith, k n.1, judge_result-identity r.0 r.2)

    -- The first task of a command is its answer for its session, and it is the only answer; the
    -- connections of the session are closed behind it, each once, exactly if the session is gone
    -- afterwards. The listeners and the command keep the id and the connections of the session.
    pub execute_on_session_thread-answers :
        (name session_id : String) (command : Session B → Status × Option A × Session B)
        (w3c_standard_command ok_without_session : Bool)
        (listeners : List (String → Session B → Status × Session B)) (s : Session B)
        → Keeps listeners
        → ((t : Session B) → identity (command t).2 ≡ identity t)
        → let r =
            execute_on_session_thread api name session_id command w3c_standard_command
              ok_without_session listeners
              (some s) in
          (e : Status) × (value : Option A) × (w3c : Bool) × (rest : List (Task A)) × (r.0
            ≡ reply e value s.id w3c ∷ rest)
          × (answered rest ≡ [])
          × (closed rest ≡ (if is_some r.1 then [] else s.connections))
    unfolding execute_on_session_thread answered closed
    execute_on_session_thread-answers name session_id command w o listeners s k c =
        let n = notify_command_listeners api name listeners s in
        let t = run_command api command w n in
        let same = run_command-identity command w n c ∙ notify-identity name listeners s k in
        let ended = terminate-tasks A t.2 in
        let tasks : List (Task A) = if t.2.quit then terminate api t.2 else [] in
        (
          t.0,
          t.1,
          t.2.w3c_compliant,
          tasks,
          ground (arith, same),
          ground (arith, ended),
          ground (arith, same, ended),
        )
