-- ===== src/FrameTracker/Known.antt =====
-- What GetTargetForFrame finds and what IsKnownFrame knows.
use chromedriver.Base.{String, ◌≡◌, refl, Bool, false, ◌||◌, is_some, arith}
use chromedriver.Dictionary.{string_eq}
use chromedriver.FrameTracker.{
  FrameTracker, tracker, View, view, plain_view, Targets, no_targets, target, mem,
  get_target_for_frame, search_target, search_view, is_known_frame, knows_target, knows_view,
}

-- The frame is among the attached frames of the tracker or of one below it.
unfoldable mutual
  pub is_attached : FrameTracker → String → Bool
  is_attached (tracker w c m a) f = mem f a || is_attached_below m f

  pub is_attached_below : Targets → String → Bool
  is_attached_below no_targets f = false
  is_attached_below (target k v m) f = is_attached_in v f || is_attached_below m f

  pub is_attached_in : View → String → Bool
  is_attached_in (view i l d t) f = is_attached t f
  is_attached_in (plain_view i l d) f = false

mutual
  unfolding is_known_frame get_target_for_frame is_attached

  known-eq :
      (t : FrameTracker) (f : String)
      → is_known_frame t f ≡ (is_some (get_target_for_frame t f) || is_attached t f)
  known-eq (tracker w c m a) f = ground (arith, knows_target-eq m f)

  knows_target-eq :
      (m : Targets) (f : String)
      → knows_target m f ≡ (is_some (search_target m f) || is_attached_below m f)
  knows_target-eq no_targets f = refl
  knows_target-eq (target k v m) f = ground (arith, knows_view-eq v f, knows_target-eq m f)

  knows_view-eq :
      (v : View) (f : String) → knows_view v f ≡ (is_some (search_view v f) || is_attached_in v f)
  knows_view-eq (view i l d t) f = known-eq t f
  knows_view-eq (plain_view i l d) f = refl

-- A frame is known exactly if it has a target, or it is attached in the tracker or in one below.
pub is_known_frame-eq :
    (t : FrameTracker) (f : String)
    → is_known_frame t f ≡ (is_some (get_target_for_frame t f) || is_attached t f)
is_known_frame-eq t f = known-eq t f
