-- ===== src/FrameTracker.antt =====
-- chrome/frame_tracker.h and chrome/frame_tracker.cc, with the locks of the child views that
-- WebViewImplHolder of chrome/web_view_impl.cc takes. The trackers of a page and of its child targets
-- form a tree. An event that attaches a child carries the events that reach the same tracker while
-- the child is attached.
pub mod Events
pub mod Locks
pub mod Known
pub mod Contexts
use Prim.Native.Nat.{Ordering}
use Prim.Native.String.{compare}
use chromedriver.Base.{
  String, Bool, true, false, ◌&&◌, ◌||◌, not, Option, none, some, List, [], ◌∷◌, ◌++◌, ◌<>◌, ◌==◌,
  if◌then◌else◌, is_some, is_empty,
}
use chromedriver.Dictionary.{string_eq, lookup, contains, put, erase}
use chromedriver.Values.{Values, find_string, find_dict, find_bool, find_string_in}
use chromedriver.Result.{Result, done, fail}
use chromedriver.Status.{
  Status, status, status_details, ok, unknown_error, no_such_execution_context,
}

mutual
  -- A tracker with the id of its view, its contexts, its targets and its attached frames.
  pub data FrameTracker : Type 0 where
    tracker : String → List (String × String) → Targets → List String → FrameTracker

  -- A view with its id, whether it is locked and whether it is detached.
  pub data View : Type 0 where
    view : String → Bool → Bool → FrameTracker → View
    -- GetFrameTracker() is null
    plain_view : String → Bool → Bool → View

  pub data Targets : Type 0 where
    no_targets : Targets
    target : String → View → Targets → Targets

abbrev pub before : String → String → Bool
before s t = elim (compare s t) [ Ordering.lt ↦ true | _ ↦ false ]

abbrev pub mem : String → List String → Bool
mem f [] = false
mem f (g ∷ l) = if g == f then true else mem f l

abbrev pub remove : String → List String → List String
remove f [] = []
remove f (g ∷ l) = let rest = remove f l in if g == f then rest else g ∷ rest

-- The operations of `frame_to_target_map_`.
unfoldable pub find_target : String → Targets → Option View
find_target f no_targets = none
find_target f (target k v m) = if k == f then some v else find_target f m

unfoldable pub put_target : String → View → Targets → Targets
put_target f v no_targets = target f v no_targets
put_target f v (target k w m) =
    if k == f
    then target k v m
    else if before f k
    then target f v (target k w m)
    else target k w (put_target f v m)

unfoldable pub erase_target : String → Targets → Targets
erase_target f no_targets = no_targets
erase_target f (target k v m) =
    let rest = erase_target f m in if k == f then rest else target k v rest

abbrev pub view_id : View → String
view_id (view i l d t) = i
view_id (plain_view i l d) = i

abbrev pub is_locked : View → Bool
is_locked (view i l d t) = l
is_locked (plain_view i l d) = l

abbrev pub is_detached : View → Bool
is_detached (view i l d t) = d
is_detached (plain_view i l d) = d

abbrev pub set_detached : View → View
set_detached (view i l d t) = view i l true t
set_detached (plain_view i l d) = plain_view i l true

abbrev pub unlock : View → View
unlock (view i l d t) = view i false d t
unlock (plain_view i l d) = plain_view i false d

abbrev pub contexts : FrameTracker → List (String × String)
contexts (tracker w c m a) = c

abbrev pub targets : FrameTracker → Targets
targets (tracker w c m a) = m

abbrev pub attached_frames : FrameTracker → List String
attached_frames (tracker w c m a) = a

abbrev with_targets : Targets → FrameTracker → FrameTracker
with_targets m (tracker w c n a) = tracker w c m a

unfoldable pub get_context_id_for_frame : String → FrameTracker → Result String
get_context_id_for_frame f t = elim (lookup f (contexts t)) [
  | none ↦ fail (status_details no_such_execution_context "frame does not have execution context")
  | some c ↦ done c
]

unfoldable pub set_context_id_for_frame : String → String → FrameTracker → FrameTracker
set_context_id_for_frame f i (tracker w c m a) = tracker w (put before f i c) m a

-- GetTargetForFrame, with the id of the view that it answers
unfoldable mutual
  pub get_target_for_frame : FrameTracker → String → Option String
  get_target_for_frame (tracker w c m a) f =
      let rest = search_target m f in
      if contains f c
      then some w
      else elim (find_target f m) [ some v ↦ some (view_id v) | none ↦ rest ]

  pub search_target : Targets → String → Option String
  search_target no_targets f = none
  search_target (target k v m) f =
      let rest = search_target m f in elim (search_view v f) [ some r ↦ some r | none ↦ rest ]

  pub search_view : View → String → Option String
  search_view (view i l d t) f = get_target_for_frame t f
  search_view (plain_view i l d) f = none

unfoldable mutual
  pub is_known_frame : FrameTracker → String → Bool
  is_known_frame (tracker w c m a) f =
      mem f a || contains f c || is_some (find_target f m) || knows_target m f

  pub knows_target : Targets → String → Bool
  knows_target no_targets f = false
  knows_target (target k v m) f = knows_view v f || knows_target m f

  pub knows_view : View → String → Bool
  knows_view (view i l d t) f = is_known_frame t f
  knows_view (plain_view i l d) f = false

unfoldable pub delete_target_for_frame : String → FrameTracker → FrameTracker
delete_target_for_frame f (tracker w c m a) = tracker w c (erase_target f m) a

-- OnConnected: the maps are emptied, and then the status is that of the first command that fails.
unfoldable pub on_connected : Status → FrameTracker → FrameTracker × Status
on_connected s (tracker w c m a) = (tracker w [] no_targets [], s)

-- The first context that has this id, in the order of the map, is erased.
abbrev pub erase_context : String → List (String × String) → List (String × String)
erase_context i [] = []
erase_context i ((f, j) ∷ c) = if j == i then c else (f, j) ∷ erase_context i c

-- The end of the scope of WebViewImplHolder, which locked the view: a view that was detached
-- meanwhile is deleted.
unfoldable pub release : String → FrameTracker → FrameTracker
release f (tracker w c m a) = elim (find_target f m) [
  | none ↦ tracker w c m a
  | some v ↦
      if is_detached v
      then tracker w c (erase_target f m) a
      else tracker w c (put_target f (unlock v) m) a
]

-- "Target.detachedFromTarget" with a target id
unfoldable pub detach : String → FrameTracker → FrameTracker
detach f (tracker w c m a) = elim (find_target f m) [
  | none ↦ tracker w c m a
  | some v ↦
      if is_locked v
      then tracker w c (put_target f (set_detached v) m) a
      else tracker w c (erase_target f m) a
]
