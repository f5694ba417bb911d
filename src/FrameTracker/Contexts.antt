-- ===== src/FrameTracker/Contexts.antt =====
-- The execution contexts of a frame tracker.
use chromedriver.Base.{String, ◌≡◌, Bool, ◌&&◌, not, some, ◌==◌, if◌then◌else◌, is_empty, arith}
use chromedriver.Dictionary.{string_eq, lookup-put}
use chromedriver.Result.{done}
use chromedriver.Status.{status, ok}
use chromedriver.Values.{Values, find_string, find_dict, find_bool}
use chromedriver.FrameTracker.{
  FrameTracker, tracker, before, get_context_id_for_frame, set_context_id_for_frame,
}
use chromedriver.FrameTracker.Events.{
  event, Events, action, perform, read_created, on_event, on_event_status,
}

get_context_id-set :
    (f g i : String) (t : FrameTracker)
    → get_context_id_for_frame g (set_context_id_for_frame f i t)
      ≡ (if f == g then done i else get_context_id_for_frame g t)
unfolding get_context_id_for_frame set_context_id_for_frame
get_context_id-set f g i (tracker w c m a) = ground (arith, lookup-put before f g i c)

module _ {V D : Type 0} (api : Values V D) (write : D → String) where
  -- A context that is created with the data of a frame becomes the context of that frame, if it is
  -- its default context and the frame has an id; the context of every other frame stays.
  pub on_event_created :
      (params context aux : D) (v : V) (f i : String) (b : Bool) (during : Events D)
      (t : FrameTracker)
      → find_dict api params "context" ≡ some context
      → find_string api context "uniqueId" ≡ some i
      → api.find context "auxData" ≡ some v
      → api.as_dict v ≡ some aux
      → find_bool api aux "isDefault" ≡ some b
      → find_string api aux "frameId" ≡ some f
      → ((g : String)
          → get_context_id_for_frame g
              (on_event api write (event "Runtime.executionContextCreated" params during) t)
            ≡ (if b && not (is_empty f) && (f == g) then done i else get_context_id_for_frame g t))
        × (on_event_status api write (event "Runtime.executionContextCreated" params during)
            ≡ status ok)
  unfolding on_event on_event_status action perform read_created
  on_event_created params context aux v f i b during t c u x d bb ff =
      (λ g. ground (arith, get_context_id-set f g i t), ground arith)
