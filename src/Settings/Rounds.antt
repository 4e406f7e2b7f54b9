-- ===== src/Settings/Rounds.antt =====
-- settings_runtime.go: the loop of `applyAgentSettings` over the values of the hub.
use labtether_agent.Common.{
  Bool, false, not, ◌||◌, Option, none, some, List, [], ◌∷◌, ◌++◌, if◌then◌else◌, Result, ok, err,
}
use labtether_agent.Common.Text.{Text}
use labtether_agent.Common.Text.Case.{CaseTables, equal_fold}
use labtether_agent.Common.Text.Compare.{same}
use labtether_agent.Common.Text.Space.{trim_space}
use labtether_agent.Settings.Applied.{apply_setting}
use labtether_agent.Settings.Running.{Running}
use labtether_agent.Settings.Keys.{
  SettingError, unknown_key, local_only_setting, setting_key_files_root_mode,
  setting_key_collect_interval_sec, setting_key_heartbeat_interval_sec,
}
use labtether_agent.Settings.Table.{agent_setting_definition_by_key}
use labtether_agent.Settings.Values.{Checks, normalize_agent_setting_value}

-- The variables of the loop.
pub record Applying : Type 0 where
  pub running : Running
  pub applied : List (Text × Text)
  pub kept : List Text
  pub needs_persisted_config_write : Bool
  pub file_root_mode_changed : Bool

module _ (tables : CaseTables) where
  abbrev mode_changes : Text → Text → Running → Bool
  mode_changes key v rt =
      if same key setting_key_files_root_mode
      then not (equal_fold tables (trim_space rt.cfg.file_root_mode) v)
      else false

  -- the end of a round, with the normalized value
  abbrev pub take_value : Text → Text → Applying → Applying
  take_value key v s = record s {
    running = apply_setting tables key v s.running;
    applied = (key, v) ∷ s.applied;
    needs_persisted_config_write =
        s.needs_persisted_config_write
        || same key setting_key_collect_interval_sec
        || same key setting_key_heartbeat_interval_sec;
    file_root_mode_changed = s.file_root_mode_changed || mode_changes key v s.running;
  }

  module _ (checks : Checks) where
    -- One round of the loop: an error, or the variables after it.
    unfoldable pub apply_one : Text → Text → Applying → Result SettingError Applying
    apply_one key raw s = elim (agent_setting_definition_by_key tables key) [
      | none ↦ err unknown_key
      | some d ↦
          if d.local_only
          then err local_only_setting
          else if s.running.pinned d.key
          then ok (record s { kept = s.kept ++ (d.key ∷ []) })
          else elim (normalize_agent_setting_value tables checks key raw) [
            | err why ↦ err why
            | ok v ↦ ok (take_value key v s)
          ]
    ]

    -- The loop over the map, in the order in which it is iterated. On an error what earlier rounds
    -- changed in the runtime stays, and the error is returned.
    unfoldable pub apply_all : List (Text × Text) → Applying → Applying × Option SettingError
    apply_all [] s = (s, none)
    apply_all ((key, raw) ∷ values) s = elim (apply_one key raw s) [
      | err why ↦ (s, some why)
      | ok s' ↦ apply_all values s'
    ]
