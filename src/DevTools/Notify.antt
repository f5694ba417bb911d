-- ===== src/DevTools/Notify.antt =====
-- The listeners of a client: AddListener, RemoveListener and the three loops
-- EnsureListenersNotifiedOf of chrome/devtools_client_impl.cc. A listener that is called may send
-- commands, and so run the loop again on what is left of its queue. `L` stands for the type of
-- listeners.
use chromedriver.Base.{ℕ, zero, suc, Bool, true, false, List, [], ◌∷◌, ◌++◌, if◌then◌else◌, length}
use chromedriver.Dictionary.{Eq}
use chromedriver.Status.{Status, status, is_error, ok}

pub record Listeners (L : Type 0) : Type 0 where
  pub listeners : List L
  pub unnotified_connect_listeners : List L
  pub unnotified_event_listeners : List L
  pub unnotified_cmd_response_listeners : List L

-- What a listener does when it is called: whether the loop runs again meanwhile, and its status.
pub record Call : Type 0 where
  pub nests : Bool
  pub result : Status

-- Who was called, who is still in the queue, and the status.
pub record Notified (L : Type 0) : Type 0 where
  pub told : List L
  pub remaining : List L
  pub result : Status

module _ {L : Type 0} where
  abbrev stop : Bool → List L → List L
  stop true q = []
  stop false q = q

  -- The loop; an error empties the queue of events, and leaves the two others as they are. A call is
  -- made only while the fuel lasts, of which the length of the queue is enough.
  unfoldable pub notify : Bool → ℕ → (L → Call) → List L → Notified L
  notify clears zero calls q = record { told = []; remaining = q; result = status ok }
  notify clears (suc n) calls [] = record { told = []; remaining = []; result = status ok }
  notify clears (suc n) calls (l ∷ q) =
      let inner = notify clears n calls q in
      let left = if (calls l).nests then inner.remaining else q in
      let told_inside = if (calls l).nests then inner.told else [] in
      let rest = notify clears n calls left in
      if is_error (calls l).result
      then record {
        told = l ∷ told_inside;
        remaining = stop clears left;
        result = (calls l).result;
      }
      else record {
        told = l ∷ told_inside ++ rest.told;
        remaining = rest.remaining;
        result = rest.result;
      }

  -- EnsureListenersNotifiedOfEvent
  unfoldable pub notify_of_event : (L → Call) → Listeners L → Status × Listeners L
  notify_of_event calls s =
      let r =
        notify true (length s.unnotified_event_listeners) calls s.unnotified_event_listeners in
      (r.result, record s { unnotified_event_listeners = r.remaining })

  -- EnsureListenersNotifiedOfConnect
  unfoldable pub notify_of_connect : (L → Call) → Listeners L → Status × Listeners L
  notify_of_connect calls s =
      let q = s.unnotified_connect_listeners in
      let r = notify false (length q) calls q in
      (r.result, record s { unnotified_connect_listeners = r.remaining })

  -- EnsureListenersNotifiedOfCommandResponse
  unfoldable pub notify_of_command_response : (L → Call) → Listeners L → Status × Listeners L
  notify_of_command_response calls s =
      let q = s.unnotified_cmd_response_listeners in
      let r = notify false (length q) calls q in
      (r.result, record s { unnotified_cmd_response_listeners = r.remaining })

  -- AddListener; `listens` is ListensToConnections of the listener.
  unfoldable pub add_listener : L → Bool → Listeners L → Listeners L
  add_listener l listens s = record s {
    listeners = s.listeners ++ l ∷ [];
    unnotified_connect_listeners =
        if listens
        then s.unnotified_connect_listeners ++ l ∷ []
        else s.unnotified_connect_listeners;
  }

module _ {L : Type 0} ⦃e : Eq L⦄ where
  -- std::find and erase
  abbrev pub remove_first : L → List L → List L
  remove_first l [] = []
  remove_first l (k ∷ q) = if e.beq k l then q else k ∷ remove_first l q

  unfoldable pub remove_listener : L → Listeners L → Listeners L
  remove_listener l s = record s {
    listeners = remove_first l s.listeners;
    unnotified_connect_listeners = remove_first l s.unnotified_connect_listeners;
    unnotified_event_listeners = remove_first l s.unnotified_event_listeners;
  }
