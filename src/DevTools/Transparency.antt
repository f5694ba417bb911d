-- ===== src/DevTools/Transparency.antt =====
-- What the tunnel through the BiDi mapper does to commands, responses and events.
use text.Mathlib.TextPositions.{starts_with-append}
use chromedriver.Base.{
  String, ◌≡◌, refl, ◌∙◌, false, ◌||◌, Option, none, some, ◌<>◌, ◌==◌, ℤ, arith,
}
use chromedriver.Values.{Values, ValueLaws, find_string, find_string-of, find_dict-of, find_int-of}
use chromedriver.DevTools.Messages.{
  event, Message, response, response_of, tunnelled_response_of, parse_cdp_tunnel_message,
  deserialize_payload, is_bidi_message, parse_bidi_message, parse_event, parse_inspector_message,
}

-- What a target answers: a result, an error, or neither
pub data Answer (D : Type 0) : Type 0 where
  results fails : D → Answer D
  nothing : Answer D

module _ {V D : Type 0} (api : Values V D) (laws : ValueLaws api) where
  open api use {set, of_string, of_dict, of_int, empty_dict}

  -- A response and an event as a target sends them
  abbrev answer_in : Answer D → D → D
  answer_in (results result) d = set d "result" (of_dict result)
  answer_in (fails error) d = set d "error" (of_dict error)
  answer_in nothing d = d

  abbrev plain_head : ℤ → String → D
  plain_head id s = set (set empty_dict "id" (of_int id)) "sessionId" (of_string s)

  abbrev mapper_head : ℤ → String → D
  mapper_head id s =
      set (set (set empty_dict "id" (of_int id)) "session" (of_string s)) "goog:channel"
        (of_string "/cdp")

  abbrev pub plain_response : ℤ → String → Answer D → D
  plain_response id s a = answer_in a (plain_head id s)

  abbrev pub plain_event : String → String → D → D
  plain_event method s params =
      set (set (set empty_dict "method" (of_string method)) "sessionId" (of_string s)) "params"
        (of_dict params)

  -- The same as payloads of the mapper
  abbrev pub mapper_response : ℤ → String → Answer D → D
  mapper_response id s a = answer_in a (mapper_head id s)

  abbrev pub mapper_event : String → String → D → D
  mapper_event method s params =
      set
        (set (set empty_dict "method" (of_string ("goog:cdp." <> method))) "params" (
          of_dict (
            set (set (set empty_dict "method" (of_string method)) "session" (of_string s)) "params"
              (of_dict params))))
        "goog:channel" (of_string "/cdp")

  -- The call of the binding that carries the text of a payload
  abbrev pub binding_call : String → String → D
  binding_call mapper_session text =
      set
        (set (set empty_dict "method" (of_string "Runtime.bindingCalled")) "sessionId"
          (of_string mapper_session))
        "params"
        (of_dict
          (set (set empty_dict "name" (of_string "sendBidiResponse")) "payload" (of_string text)))

  module _ (write : D → String) (read read_payload : String → Option V) where
    parse_binding_call :
        (message text s : String) (payload : D)
        → read message ≡ some (of_dict (binding_call s text))
        → read_payload text ≡ some (of_dict payload)
        → find_string api payload "goog:channel" ≡ some "/cdp"
        → parse_inspector_message api write read read_payload message
          ≡ parse_cdp_tunnel_message api write payload
    unfolding parse_inspector_message parse_event is_bidi_message parse_bidi_message
        deserialize_payload
    parse_binding_call message text s payload r p c =
        let call = binding_call s text in
        let args =
          set (set empty_dict "name" (of_string "sendBidiResponse")) "payload" (of_string text) in
        ground (
          arith,
          r,
          p,
          c,
          laws.as_dict-of_dict call,
          laws.as_dict-of_dict payload,
          no_id s text,
          find_string-of laws call "method" "Runtime.bindingCalled" (simp laws.find-set),
          find_dict-of laws call "params" args (simp laws.find-set),
          find_string-of laws args "name" "sendBidiResponse" (simp laws.find-set),
          find_string-of laws args "payload" text (simp laws.find-set),
        )
      where
        no_id : (s text : String) → api.find (binding_call s text) "id" ≡ none
        no_id s text = simp (laws.find-set, laws.find-empty_dict)

    -- The message of an answer
    abbrev pub told : ℤ → String → Answer D → Message D
    told id s (results result) = response s id (some result) ""
    told id s (fails error) = response s id none (write error)
    told id s nothing = response s id (some empty_dict) ""

    answer-find :
        (key : String) (d : D) (a : Answer D)
        → ("result" == key || "error" == key) ≡ false
        → api.find (answer_in a d) key ≡ api.find d key
    answer-find key d (results result) h =
        ground (arith, h, laws.find-set d "result" key (of_dict result))
    answer-find key d (fails error) h =
        ground (arith, h, laws.find-set d "error" key (of_dict error))
    answer-find key d nothing h = refl

    -- The keys that an answer sets are not in the dictionary.
    abbrev IsHead : D → Type 0
    IsHead d = (api.find d "result" ≡ none) × (api.find d "error" ≡ none)

    response_of-told :
        (id : ℤ) (s : String) (d : D) (a : Answer D)
        → IsHead d
        → response_of api write s id (answer_in a d) ≡ told id s a
    unfolding response_of
    response_of-told id s d (results result) h =
        ground (arith, find_dict-of laws (answer_in (results result) d) "result" result set_result)
      where
        set_result : api.find (set d "result" (of_dict result)) "result" ≡ some (of_dict result)
        set_result = simp laws.find-set
    response_of-told id s d (fails error) h = ground (
      arith,
      h,
      laws.find-set d "error" "result" (of_dict error),
      find_dict-of laws (answer_in (fails error) d) "error" error set_error,
    )
      where
        set_error : api.find (set d "error" (of_dict error)) "error" ≡ some (of_dict error)
        set_error = simp laws.find-set
    response_of-told id s d nothing h = ground (arith, h)

    tunnelled_response_of-told :
        (id : ℤ) (s : String) (d : D) (a : Answer D)
        → IsHead d
        → tunnelled_response_of api write s id (answer_in a d) ≡ told id s a
    unfolding response_of tunnelled_response_of
    tunnelled_response_of-told id s d a h = response_of-told id s d a h

    plain_head-IsHead : (id : ℤ) (s : String) → IsHead (plain_head id s) × IsHead (mapper_head id s)
    plain_head-IsHead id s = (
      (simp (laws.find-set, laws.find-empty_dict), simp (laws.find-set, laws.find-empty_dict)),
      (simp (laws.find-set, laws.find-empty_dict), simp (laws.find-set, laws.find-empty_dict)),
    )

    parse_plain_response :
        (message s : String) (id : ℤ) (a : Answer D)
        → read message ≡ some (of_dict (plain_response id s a))
        → parse_inspector_message api write read read_payload message ≡ some (told id s a)
    unfolding parse_inspector_message
    parse_plain_response message s id a r =
        let d = plain_response id s a in
        ground (
          arith,
          r,
          laws.as_dict-of_dict d,
          laws.as_int-of_int id,
          answer-find "id" (plain_head id s) a refl,
          head_id,
          find_string-of laws d "sessionId" s
              (answer-find "sessionId" (plain_head id s) a refl ∙ head_session),
          response_of-told id s (plain_head id s) a (plain_head-IsHead id s).0,
        )
      where
        head_id : api.find (plain_head id s) "id" ≡ some (of_int id)
        head_id = simp laws.find-set

        head_session : api.find (plain_head id s) "sessionId" ≡ some (of_string s)
        head_session = simp laws.find-set

    -- A response that comes through the tunnel is parsed to the same message as the response that
    -- comes from the target, with the same session and id: to its result, to the text of its error,
    -- or to an empty result if it has neither.
    pub parse_inspector_message-response :
        (plain tunnelled text s mapper_session : String) (id : ℤ) (a : Answer D)
        → read plain ≡ some (of_dict (plain_response id s a))
        → read tunnelled ≡ some (of_dict (binding_call mapper_session text))
        → read_payload text ≡ some (of_dict (mapper_response id s a))
        → (parse_inspector_message api write read read_payload plain ≡ some (told id s a))
          × (parse_inspector_message api write read read_payload tunnelled ≡ some (told id s a))
    unfolding parse_cdp_tunnel_message
    parse_inspector_message-response plain tunnelled text s mapper_session id a r t p = (
      parse_plain_response plain s id a r,
      ground (
        arith,
        parse_binding_call tunnelled text mapper_session (mapper_response id s a) t p (
            find_string-of laws (mapper_response id s a) "goog:channel" "/cdp"
              (kept "goog:channel" refl channel)),
        answer-find "method" (mapper_head id s) a refl,
        no_method,
        find_int-of laws (mapper_response id s a) "id" id (kept "id" refl head_id),
        find_string-of laws (mapper_response id s a) "session" s (kept "session" refl session),
        tunnelled_response_of-told id s (mapper_head id s) a (plain_head-IsHead id s).1,
      ),
    )
      where
        kept :
            (key : String) {v : V}
            → ("result" == key || "error" == key) ≡ false
            → api.find (mapper_head id s) key ≡ some v
            → api.find (mapper_response id s a) key ≡ some v
        kept key h e = answer-find key (mapper_head id s) a h ∙ e

        head_id : api.find (mapper_head id s) "id" ≡ some (of_int id)
        head_id = simp laws.find-set

        channel : api.find (mapper_head id s) "goog:channel" ≡ some (of_string "/cdp")
        channel = simp laws.find-set

        session : api.find (mapper_head id s) "session" ≡ some (of_string s)
        session = simp laws.find-set

        no_method : api.find (mapper_head id s) "method" ≡ none
        no_method = simp (laws.find-set, laws.find-empty_dict)

    parse_plain_event :
        (message method s : String) (params : D)
        → read message ≡ some (of_dict (plain_event method s params))
        → (method == "Runtime.bindingCalled") ≡ false
        → parse_inspector_message api write read read_payload message ≡ some (event s method params)
    unfolding parse_inspector_message parse_event is_bidi_message
    parse_plain_event message method s params r n =
        let d = plain_event method s params in
        ground (
          arith,
          r,
          n,
          laws.as_dict-of_dict d,
          no_id,
          find_string-of laws d "method" method (simp laws.find-set),
          find_string-of laws d "sessionId" s (simp laws.find-set),
          find_dict-of laws d "params" params (simp laws.find-set),
        )
      where
        no_id : api.find (plain_event method s params) "id" ≡ none
        no_id = simp (laws.find-set, laws.find-empty_dict)

    -- An event that comes through the tunnel is parsed to the same message as the event that comes
    -- from the target, unless it is itself a call of a binding.
    pub parse_inspector_message-event :
        (plain tunnelled text method s mapper_session : String) (params : D)
        → read plain ≡ some (of_dict (plain_event method s params))
        → read tunnelled ≡ some (of_dict (binding_call mapper_session text))
        → read_payload text ≡ some (of_dict (mapper_event method s params))
        → (method == "Runtime.bindingCalled") ≡ false
        → parse_inspector_message api write read read_payload tunnelled
          ≡ parse_inspector_message api write read read_payload plain
    unfolding parse_cdp_tunnel_message
    parse_inspector_message-event plain tunnelled text method s mapper_session params r t p n =
        let payload = mapper_event method s params in
        let inner =
          set (set (set empty_dict "method" (of_string method)) "session" (of_string s)) "params"
            (of_dict params) in
        ground (
          arith,
          parse_plain_event plain method s params r n,
          parse_binding_call tunnelled text mapper_session payload t p
              (find_string-of laws payload "goog:channel" "/cdp" (simp laws.find-set)),
          find_string-of laws payload "method" ("goog:cdp." <> method) (simp laws.find-set),
          starts_with-append "goog:cdp." method,
          find_dict-of laws payload "params" inner (simp laws.find-set),
          find_string-of laws inner "method" method (simp laws.find-set),
          find_string-of laws inner "session" s (simp laws.find-set),
          find_dict-of laws inner "params" params (simp laws.find-set),
        )
