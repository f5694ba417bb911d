-- ===== src/Sessions/Trip.antt =====
-- The way of a BiDi command to the mapper and of the mapper's response back to a connection.
use text.Mathlib.TextLemmas.{append_assoc}
use chromedriver.Base.{
  String, ◌≡◌, ap, sym, ◌∙◌, true, false, Option, none, some, List, [], ◌∷◌, ◌<>◌, ◌==◌,
  if◌then◌else◌, ℤ, arith, eq_of_==, Bool-cases, Option-cases, inl, inr,
}
use chromedriver.Values.{
  Values, ValueLaws, find_string, find_dict, find_int, find_string-of, find_dict-of,
}
use chromedriver.Result.{done}
use chromedriver.Status.{status, ok}
use chromedriver.DevTools.Messages.{
  event, ends_with, bidi_channel_suffix, parse_inspector_message, is_bidi_message,
  parse_bidi_message, parse_event, deserialize_payload,
}
use chromedriver.DevTools.Transparency.{binding_call}
use chromedriver.Sessions.Channels.{
  channel_suffix, no_channel_suffix, is_connected, user_channel, forward_bidi_command,
  post_bidi_command, on_bidi_response, on_event, deliver,
}
use chromedriver.Sessions.Delivery.{
  is_plain, split_channel-user_channel, ends_with-append, drop_suffix-append,
}
use chromedriver.Sessions.Suffixes.{
  ends_with-user_channel, ends_with-chan, ends_with-nochan, user_channel-is_empty,
}

module _ {V D : Type 0} (api : Values V D) (laws : ValueLaws api) where
  open api use {set, remove, of_string, of_dict, empty_dict, find}

  -- The payload that leaves for the connection
  abbrev pub restored : D → Option String → D
  restored payload none = remove (set payload "goog:channel" (of_string "")) "goog:channel"
  restored payload (some u) = set payload "goog:channel" (of_string u)

  find-restored :
      (payload : D) (o : Option String) (k : String)
      → find (restored payload o) k ≡ (
          if "goog:channel" == k
          then elim o [ none ↦ none | some u ↦ some (of_string u) ]
          else find payload k)
  find-restored payload none k = ground (
    arith,
    laws.find-remove (set payload "goog:channel" (of_string "")) "goog:channel" k,
    laws.find-set payload "goog:channel" k (of_string ""),
  )
  find-restored payload (some u) k = laws.find-set payload "goog:channel" k (of_string u)

  module _ (string_to_int : String → Option ℤ) (write : D → Option String)
      (connections : List ℤ) where
    abbrev pub answer : ℤ → Option String → List (ℤ × String)
    answer i message = elim message [
      | none ↦ []
      | some out ↦ if is_connected i connections then (i, out) ∷ [] else []
    ]

    on_bidi_response-user_channel :
        (n : String) (o : Option String) (i : ℤ) (payload : D)
        → is_plain n ≡ true
        → string_to_int n ≡ some i
        → find_string api payload "goog:channel" ≡ some (user_channel n o)
        → (on_bidi_response api string_to_int write connections payload).1
          ≡ answer i (write (restored payload o))
    unfolding on_bidi_response
    on_bidi_response-user_channel n none i payload p e c =
        let w = Option-cases (write (restored payload none)) in
        ground (arith, c, split_channel-user_channel string_to_int n none i p e, w)
    on_bidi_response-user_channel n (some u) i payload p e c =
        let w = Option-cases (write (restored payload (some u))) in
        ground (arith, c, split_channel-user_channel string_to_int n (some u) i p e, w)

    -- The trackers on the event of a response
    deliver-user_channel :
        (n : String) (o : Option String) (i : ℤ) (s : String) (params payload : D)
        → is_plain n ≡ true
        → string_to_int n ≡ some i
        → find_string api params "name" ≡ some "sendBidiResponse"
        → find_dict api params "payload" ≡ some payload
        → find_string api payload "goog:channel" ≡ some (user_channel n o)
        → deliver api string_to_int write connections
            (some (event s "Runtime.bindingCalled" params))
          ≡ answer i (write (restored payload o))
    unfolding deliver on_event
    deliver-user_channel n none i s params payload p e name found c =
        let skip : ends_with (user_channel n none) channel_suffix ≡ false =
          rw (sym (append_assoc "/" n no_channel_suffix)) (ends_with-nochan ("/" <> n)) in
        ground (
          arith,
          name,
          found,
          c,
          skip,
          user_channel-is_empty n none,
          ends_with-user_channel n none,
          on_bidi_response-user_channel n none i payload p e c,
        )
    deliver-user_channel n (some u) i s params payload p e name found c =
        let skip : ends_with (user_channel n (some u)) no_channel_suffix ≡ false =
          rw
            (
              sym (append_assoc "/" n channel_suffix),
              sym (append_assoc u ("/" <> n) channel_suffix),
            )
            (ends_with-chan (u <> ("/" <> n))) in
        ground (
          arith,
          name,
          found,
          c,
          skip,
          user_channel-is_empty n (some u),
          ends_with-user_channel n (some u),
          on_bidi_response-user_channel n (some u) i payload p e c,
        )

  module _ (write_error : D → String) (read read_payload : String → Option V) where
    -- The event that a payload on a channel of a session becomes: its channel lost the suffix.
    parse_response_call :
        (message text s channel : String) (payload : D)
        → read message ≡ some (of_dict (binding_call api laws s text))
        → read_payload text ≡ some (of_dict payload)
        → find_string api payload "goog:channel" ≡ some (channel <> bidi_channel_suffix)
        → parse_inspector_message api write_error read read_payload message
          ≡ some (
              event s "Runtime.bindingCalled" (
                set
                  (set
                    (set empty_dict "name" (of_string "sendBidiResponse"))
                    "payload"
                    (of_string text))
                  "payload"
                  (of_dict (set payload "goog:channel" (of_string channel)))))
    unfolding parse_inspector_message parse_event is_bidi_message parse_bidi_message
        deserialize_payload
    parse_response_call message text s channel payload r p c =
        let call = binding_call api laws s text in
        let args =
          set (set empty_dict "name" (of_string "sendBidiResponse")) "payload" (of_string text) in
        ground (
          arith,
          r,
          p,
          c,
          tunnel,
          ends_with-append channel bidi_channel_suffix,
          drop_suffix-append channel,
          laws.as_dict-of_dict call,
          laws.as_dict-of_dict payload,
          no_id s text,
          find_string-of laws call "method" "Runtime.bindingCalled" (simp laws.find-set),
          find_string-of laws call "sessionId" s (simp laws.find-set),
          find_dict-of laws call "params" args (simp laws.find-set),
          find_string-of laws args "name" "sendBidiResponse" (simp laws.find-set),
          find_string-of laws args "payload" text (simp laws.find-set),
        )
      where
        no_id : (s text : String) → find (binding_call api laws s text) "id" ≡ none
        no_id s text = simp (laws.find-set, laws.find-empty_dict)

        tunnel : (channel <> bidi_channel_suffix == "/cdp") ≡ false
        tunnel = elim (Bool-cases (channel <> bidi_channel_suffix == "/cdp")) [
          | inl h ↦
              let same =
                ap (λ (u : String). ends_with u bidi_channel_suffix)
                  (eq_of_== (channel <> bidi_channel_suffix) "/cdp" h) in
              absurd (ground (arith, same, ends_with-append channel bidi_channel_suffix))
          | inr h ↦ h
        ]

  -- What ForwardBidiCommand posts, as PostBidiCommand changes it
  posted_channel :
      (number_to_string : ℤ → String) (params command posted : D) (i : ℤ)
      → find_dict api params "bidiCommand" ≡ some command
      → find_int api params "connectionId" ≡ some i
      → forward_bidi_command api number_to_string true (status ok) params ≡ done posted
      → find_string api (post_bidi_command api posted) "goog:channel"
        ≡ some (
            user_channel (number_to_string i) (find_string api command "goog:channel")
            <> bidi_channel_suffix)
  unfolding forward_bidi_command post_bidi_command
  posted_channel number_to_string params command posted i b c f =
      let channel = user_channel (number_to_string i) (find_string api command "goog:channel") in
      let tagged = set command "goog:channel" (of_string channel) in
      let is_tagged : posted ≡ tagged =
        ground (arith, b, c, f, Option-cases (find_string api command "channel")) in
      rw is_tagged (
        ground (
          arith,
          find_string-of laws tagged "goog:channel" channel (simp laws.find-set),
          find_string-of laws
              (set tagged "goog:channel" (of_string (channel <> bidi_channel_suffix)))
              "goog:channel" (channel <> bidi_channel_suffix) (simp laws.find-set),
        ))

-- A response of the mapper to a BiDi command goes to the connection that the command came from, and
-- to no other, if that connection is still there: the command named the connection `i` and was
-- forwarded, the payload of the response is on the channel that the mapper was sent, the number is
-- printed without a slash and read back. What is sent is the payload with the channel of the user,
-- or without a channel where the user gave none, and with everything else unchanged.
pub deliver-forward_bidi_command :
    {V D : Type 0} (api : Values V D) (laws : ValueLaws api) (number_to_string : ℤ → String)
    (string_to_int : String → Option ℤ) (write : D → Option String) (write_error : D → String)
    (read read_payload : String → Option V) (connections : List ℤ)
    (params command posted payload : D) (i : ℤ) (message text s : String)
    → is_plain (number_to_string i) ≡ true
    → string_to_int (number_to_string i) ≡ some i
    → find_dict api params "bidiCommand" ≡ some command
    → find_int api params "connectionId" ≡ some i
    → forward_bidi_command api number_to_string true (status ok) params ≡ done posted
    → read message ≡ some (api.of_dict (binding_call api laws s text))
    → read_payload text ≡ some (api.of_dict payload)
    → find_string api payload "goog:channel"
      ≡ find_string api (post_bidi_command api posted) "goog:channel"
    → let o = find_string api command "goog:channel" in
      (sent : D) × (deliver api string_to_int write connections
          (parse_inspector_message api write_error read read_payload message)
        ≡ (elim (write sent) [
          | none ↦ []
          | some out ↦ if is_connected i connections then (i, out) ∷ [] else []
        ]))
      × ((k : String)
          → api.find sent k ≡ (
              if "goog:channel" == k
              then elim o [ none ↦ none | some u ↦ some (api.of_string u) ]
              else api.find payload k))
deliver-forward_bidi_command api laws number_to_string string_to_int write write_error read
      read_payload connections params command posted payload i message text s p e b c f r t g =
    let o = find_string api command "goog:channel" in
    let n = number_to_string i in
    let channel = user_channel n o in
    let arrived = api.set payload "goog:channel" (api.of_string channel) in
    let args =
      api.set (api.set api.empty_dict "name" (api.of_string "sendBidiResponse")) "payload"
        (api.of_string text) in
    let params' = api.set args "payload" (api.of_dict arrived) in
    let parsed =
      parse_response_call api laws write_error read read_payload message text s channel payload r t
        (g ∙ posted_channel api laws number_to_string params command posted i b c f) in
    let delivered =
      deliver-user_channel api laws string_to_int write connections n o i s params' arrived p e
        (find_string-of laws params' "name" "sendBidiResponse" (simp laws.find-set))
        (find_dict-of laws params' "payload" arrived (simp laws.find-set))
        (find_string-of laws arrived "goog:channel" channel (simp laws.find-set)) in
    (
      restored api laws arrived o,
      ap (deliver api string_to_int write connections) parsed ∙ delivered,
      λ k. ground (
        arith,
        find-restored api laws arrived o k,
        laws.find-set payload "goog:channel" k (api.of_string channel),
      ),
    )
