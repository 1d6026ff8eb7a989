-- ===== src/Ui/Tray.antt =====
-- src/ui/tray_controller.h and tray_controller.cpp, `TrayController`. What is given to the icon and to
-- the message boxes of Qt is the trace `shown`, with the values in place of the texts made of them.
use ips_with_ai.Prelude.{Bool, true, false, ◌||◌, not, List, [], ◌∷◌, ◌++◌, if◌then◌else◌}
use ips_with_ai.Ai.Types.{
  AiState, AiBlockEvent, disabled, starting, online, restart_wait, offline, stopping,
}

pub data Color : Type 0 where
  green yellow gray : Color

-- `D` is the type of what is said of a state, and `R` of a report.
pub data Display (F D R : Type 0) : Type 0 where
  icon : Color → D → Display F D R
  block_message : AiBlockEvent F → Display F D R
  offline_message : D → Display F D R
  status_box : R → Display F D R

pub record Tray (F D R : Type 0) : Type 0 where
  pub available : Bool
  pub offline_shown : Bool
  pub shown : List (Display F D R)

unfoldable pub state_color : AiState → Color
state_color online = green
state_color disabled = yellow
state_color offline = yellow
state_color starting = gray
state_color restart_wait = gray
state_color stopping = gray

-- Coming online lets the next outage be shown.
abbrev still_shown : AiState → Bool → Bool
still_shown online shown = false
still_shown _ shown = shown

module _ {F D R : Type 0} where
  -- The constructor, where `available` says whether there is a system tray; the first icon is for STARTING.
  unfoldable pub new_tray : Bool → D → Tray F D R
  new_tray available not_started = record {
    available = available;
    offline_shown = false;
    shown = if available then icon (state_color starting) not_started ∷ [] else [];
  }

  unfoldable pub set_ai_state : Tray F D R → AiState → D → Tray F D R
  unfolding state_color
  set_ai_state t state detail = if not t.available then t else record t {
    offline_shown = still_shown state t.offline_shown;
    shown = t.shown ++ icon (state_color state) detail ∷ [];
  }

  unfoldable pub show_ai_block : Tray F D R → AiBlockEvent F → Tray F D R
  show_ai_block t event =
      if not t.available then t else record t { shown = t.shown ++ block_message event ∷ [] }

  unfoldable pub show_ai_offline : Tray F D R → D → Tray F D R
  show_ai_offline t reason =
      if not t.available || t.offline_shown
      then t
      else record t { offline_shown = true; shown = t.shown ++ offline_message reason ∷ [] }

  unfoldable pub show_status : Tray F D R → R → Tray F D R
  show_status t text =
      if not t.available then t else record t { shown = t.shown ++ status_box text ∷ [] }
