-- ===== src/Settings/Table.antt =====
-- sysconfig/settings_definitions.go: the table of the settings, and the lookup of one.
mod Collection
mod Services
mod Remote
mod Agent
use labtether_agent.Common.{
  Bool, true, false, Option, none, some, List, [], ◌∷◌, ◌++◌, if◌then◌else◌,
}
use labtether_agent.Common.Text.{Text, codes}
use labtether_agent.Common.Text.Case.{CaseTables, to_lower}
use labtether_agent.Common.Text.Compare.{same}
use labtether_agent.Common.Text.Space.{trim_space}
use labtether_agent.Settings.Keys.{Definition}
use Collection.{collection_settings}
use Services.{service_settings}
use Remote.{remote_settings}
use Agent.{agent_settings}

unfoldable pub agent_setting_definitions : List Definition
agent_setting_definitions =
    collection_settings ++ (service_settings ++ (remote_settings ++ agent_settings))

abbrev pub or_first : Option Definition → Definition → Option Definition
or_first none d = some d
or_first (some later) d = some later

-- `buildAgentSettingDefinitionsByKey` and the lookup: the last definition of a key stays in the map.
unfoldable pub find_definition : List Definition → Text → Option Definition
find_definition [] key = none
find_definition (d ∷ ds) key =
    let later = find_definition ds key in if same key d.key then or_first later d else later

unfoldable pub agent_setting_definition_by_key : CaseTables → Text → Option Definition
agent_setting_definition_by_key tables key =
    find_definition agent_setting_definitions (trim_space (to_lower tables key))
