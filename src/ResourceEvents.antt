-- ===== src/ResourceEvents.antt =====
-- The formatter of resource events, web/src/lib/resourceEvents.ts, which turns the details of a
-- sandbox's events into rows of the console.
pub mod Rows
pub mod Tests
use embervm.Prelude.{
  ℕ, String, Bool, true, false, ◌||◌, Option, none, some, List, [], ◌∷◌, ◌++◌, ltb, str_eq,
  if◌then◌else◌,
}

-- `ResourceEventDetail`; `kind` is `none` where it is missing or no string.
pub record ResourceEventDetail : Type 0 where
  pub kind : Option String
  pub actor : Option String
  pub reason : Option String
  pub memory_mib : Option (ℕ × ℕ)
  pub vcpus : Option (ℕ × ℕ)
  pub from_node : Option String
  pub to_node : Option String
  pub psi_mem : Option ℕ
  pub avail_pct : Option ℕ
  pub enabled : Option Bool

pub data Icon : Type 0 where
  grow shrink migrate config deferred : Icon

pub data Tone : Type 0 where
  ok warn : Tone

-- `ResourceEventView`; `text` is the list of the strings that the template concatenates.
pub record ResourceEventView : Type 0 where
  pub icon : Icon
  pub text : List String
  pub tone : Tone
  pub actor : Option String

unfoldable pub is_resource_kind : String → Bool
is_resource_kind kind =
    str_eq kind "resize" || str_eq kind "migrate" || str_eq kind "autoscale_config"

unfoldable pub parse_kind : Option String → Bool
parse_kind none = false
parse_kind (some kind) = is_resource_kind kind

-- `parseResourceEvent`, of the event's detail.
unfoldable pub parse_resource_event : Option ResourceEventDetail → Option ResourceEventDetail
parse_resource_event none = none
parse_resource_event (some d) = if parse_kind d.kind then some d else none

-- `pairText`
unfoldable pub pair_text : Option (ℕ × ℕ) → (ℕ → List String) → List String
pair_text none fmt = []
pair_text (some (old, new)) fmt = fmt old ++ " → " ∷ fmt new

-- `[mem, cpu].filter(Boolean).join(" · ")`, with the space that goes before it where it is not empty.
unfoldable pub moved_text : List String → List String → List String
moved_text [] [] = []
moved_text (m ∷ mem) [] = " " ∷ m ∷ mem
moved_text [] (c ∷ cpu) = " " ∷ c ∷ cpu
moved_text (m ∷ mem) (c ∷ cpu) = " " ∷ (m ∷ mem) ++ " · " ∷ c ∷ cpu

abbrev pub pair_grew : Option (ℕ × ℕ) → Bool
pair_grew none = false
pair_grew (some (old, new)) = ltb old new

abbrev or_question : Option String → String
or_question none = "?"
or_question (some node) = node

abbrev or_false : Option Bool → Bool
or_false none = false
or_false (some b) = b

abbrev or_nothing : Option String → String
or_nothing none = ""
or_nothing (some s) = s

-- `fmt_mib` is `fmtMiB` and `fmt_vcpus` the template of a number of vCPUs.
module _ (fmt_mib fmt_vcpus : ℕ → List String) (t : String → String → String) where
  unfoldable pub actor_label : Option String → Option String
  actor_label none = none
  actor_label (some actor) =
      if str_eq actor "autoscale"
      then some (t "autoscale" "自动伸缩")
      else if str_eq actor "user"
      then some (t "user" "用户")
      else some actor

  unfoldable pub describe_resize : ResourceEventDetail → ResourceEventView
  describe_resize d =
      let grew : Bool = pair_grew d.memory_mib || pair_grew d.vcpus in
      let moved : List String =
        moved_text (pair_text d.memory_mib fmt_mib) (pair_text d.vcpus fmt_vcpus) in
      if str_eq (or_nothing d.reason) "deferred"
      then record {
        icon = deferred;
        text =
            t "Growth deferred — the node is out of budget; retrying, or migrate to a roomier node"
              "扩容被推迟——节点预算已满；将自动重试，或迁移到更宽裕的节点"
            ∷ [];
        tone = warn;
        actor = actor_label d.actor;
      }
      else record {
        icon = if grew then grow else shrink;
        text = (if grew then t "Grew" "扩容" else t "Shrank" "缩容") ∷ moved;
        tone = ok;
        actor = actor_label d.actor;
      }

  -- `describeResourceEvent`
  unfoldable pub describe_resource_event : ResourceEventDetail → ResourceEventView
  describe_resource_event d =
      if str_eq (or_nothing d.kind) "resize"
      then describe_resize d
      else if str_eq (or_nothing d.kind) "migrate"
      then record {
        icon = migrate;
        text =
            t "Migrated" "迁移" ∷ " " ∷ or_question d.from_node ∷ " → " ∷ or_question d.to_node ∷ [];
        tone = ok;
        actor = actor_label d.actor;
      }
      else if str_eq (or_nothing d.kind) "autoscale_config"
      then record {
        icon = config;
        text =
            (if or_false d.enabled
              then t "Autoscale turned on" "自动伸缩已开启"
              else t "Autoscale turned off" "自动伸缩已关闭")
            ∷ [];
        tone = ok;
        actor = actor_label d.actor;
      }
      else record {
        icon = config;
        text = or_nothing d.kind ∷ [];
        tone = ok;
        actor = actor_label d.actor;
      }
