-- ===== src/Events.antt =====
-- The events of sandboxes as the console lists them: the timeline of
-- web/src/pages/workspace/CheckpointsTab.tsx, the cards of OverviewTab.tsx, the feed of
-- web/src/pages/Overview.tsx and the newest scaling event of each sandbox in Sandboxes.tsx.
pub mod Timeline
pub mod LastScale
pub mod Tests
use embervm.Prelude.{
  ℕ, String, Bool, true, false, not, ◌&&◌, Option, none, some, List, [], ◌∷◌, ◌++◌, map, keep, take,
  leb, sort, get, put, is_some, if◌then◌else◌, str_eq,
}
use embervm.Term.{SandboxState}
use embervm.Status.{meta, state_label}
use embervm.ResourceEvents.{
  ResourceEventDetail, ResourceEventView, Tone, ok, warn, parse_resource_event,
  describe_resource_event,
}

-- `SandboxEvent`; `note` is the member `error` of the detail where it is a string.
pub record SandboxEvent : Type 0 where
  pub id : ℕ
  pub sandbox_id : String
  pub from_state : String
  pub to_state : SandboxState
  pub at : String
  pub detail : Option ResourceEventDetail
  pub note : Option String

pub record Checkpoint : Type 0 where
  pub tag : String
  pub layer : String
  pub seq : ℕ
  pub created_at : String

-- `parseResourceEvent(ev) !== null`
unfoldable pub is_resource : SandboxEvent → Bool
unfolding parse_resource_event
is_resource ev = is_some (parse_resource_event ev.detail)

-- An entry of the timeline, with its time in `at`.
pub data Item : Type 0 where
  checkpoint : Checkpoint → Item
  event : SandboxEvent → Item

abbrev pub at_of : Item → String
at_of (checkpoint cp) = cp.created_at
at_of (event ev) = ev.at

module _ (time : String → ℕ) where
  -- Whether the comparison `b - a` of the times is not positive.
  unfoldable pub newer : Item → Item → Bool
  newer a b = leb (time (at_of b)) (time (at_of a))

  -- `items`
  unfoldable pub items : List Checkpoint → List SandboxEvent → List Item
  unfolding newer
  items checkpoints events = sort newer (map checkpoint checkpoints ++ map event events)

-- The loop of `lastScale`.
unfoldable pub scale_from :
    List (String × SandboxEvent) → List SandboxEvent → List (String × SandboxEvent)
unfolding is_resource
scale_from m [] = m
scale_from m (ev ∷ evs) =
    if not (is_some (get ev.sandbox_id m)) && is_resource ev
    then scale_from (put ev.sandbox_id ev m) evs
    else scale_from m evs

unfoldable pub last_scale : List SandboxEvent → List (String × SandboxEvent)
unfolding scale_from
last_scale events = scale_from [] events

pub data FeedFilter : Type 0 where
  all lifecycle resources : FeedFilter

unfoldable pub feed : FeedFilter → List SandboxEvent → List SandboxEvent
unfolding is_resource
feed all events = events
feed lifecycle events = keep (λ ev. not (is_resource ev)) events
feed resources events = keep is_resource events

-- The rows of `ScalingActivity`, and of `RecentEvents`.
unfoldable pub scaling_rows : List SandboxEvent → List SandboxEvent
unfolding is_resource
scaling_rows events = take 6 (keep is_resource events)

unfoldable pub recent_events : List SandboxEvent → List SandboxEvent
recent_events events = take 5 events

-- What a row of the timeline shows: its colour and its texts.
pub record Row : Type 0 where
  pub color : String
  pub text : List String
  pub chip : Option String
  pub from_state : Option String
  pub note : Option String

abbrev non_empty : String → Option String
non_empty String.[] = none
non_empty (String.◌∷◌ c s) = some (String.◌∷◌ c s)

abbrev tone_color : Tone → String
tone_color warn = "var(--color-warm)"
tone_color ok = "var(--color-transit)"

module _ (fmt_mib fmt_vcpus : ℕ → List String) (t : String → String → String) where
  abbrev resource_row : ResourceEventView → Row
  resource_row view = record {
    color = tone_color view.tone;
    text = view.text;
    chip = view.actor;
    from_state = none;
    note = none;
  }

  -- `EventRow`
  unfoldable pub event_row : SandboxEvent → Row
  unfolding parse_resource_event meta state_label
  event_row ev = elim (parse_resource_event ev.detail) [
    | some d ↦ resource_row (describe_resource_event fmt_mib fmt_vcpus t d)
    | none ↦ record {
      color = (meta ev.to_state).color;
      text = state_label ev.to_state t ∷ [];
      chip = none;
      from_state = non_empty ev.from_state;
      note = ev.note;
    }
  ]
