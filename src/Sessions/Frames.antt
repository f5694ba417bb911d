-- ===== src/Sessions/Frames.antt =====
-- The frames of a session: SwitchToTopFrame, SwitchToParentFrame, SwitchToSubFrame,
-- GetCurrentFrameId and SwitchFrameInternal of session.cc.
use chromedriver.Base.{String, Bool, List, [], ◌∷◌, if◌then◌else◌}

pub record FrameInfo : Type 0 where
  pub parent_frame_id : String
  pub frame_id : String
  pub chromedriver_frame_id : String

-- `frames`, the innermost first, and the frame that SetFrame has set in the web view
pub record Focus : Type 0 where
  pub frames : List FrameInfo
  pub view_frame : String

-- GetCurrentFrameId
unfoldable pub current_frame_id : List FrameInfo → String
current_frame_id [] = ""
current_frame_id (f ∷ fs) = f.frame_id

-- SwitchFrameInternal, where the Boolean says whether GetTargetWindow finds the web view
unfoldable pub switch_frame_internal : Bool → Bool → Focus → Focus
switch_frame_internal found for_top_frame f =
    if found
    then record f { view_frame = if for_top_frame then "" else current_frame_id f.frames }
    else f

unfoldable pub switch_to_top_frame : Bool → Focus → Focus
switch_to_top_frame found f = switch_frame_internal found Bool.true (record f { frames = [] })

abbrev parents : List FrameInfo → List FrameInfo
parents [] = []
parents (f ∷ fs) = fs

unfoldable pub switch_to_parent_frame : Bool → Focus → Focus
switch_to_parent_frame found f =
    switch_frame_internal found Bool.false (record f { frames = parents f.frames })

unfoldable pub switch_to_sub_frame : Bool → String → String → Focus → Focus
switch_to_sub_frame found frame_id chromedriver_frame_id f =
    switch_frame_internal found Bool.false (record f {
      frames =
          record {
            parent_frame_id = current_frame_id f.frames;
            frame_id = frame_id;
            chromedriver_frame_id = chromedriver_frame_id;
          }
          ∷ f.frames;
    })
