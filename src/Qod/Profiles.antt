-- ===== src/Qod/Profiles.antt =====
-- The profile mappings that `initialize_default_mappings` of af_core/src/qod/qod_state_manager.cpp
-- writes, and the maximal durations and the supported profiles of
-- af_core/src/qod/qod_session_manager.cpp.
use phine_af.Prelude.{ℕ, String, true, false, none, some, List, [], ◌∷◌}
use phine_af.Map.{Map, empty, put}
use phine_af.Qod.Types.{QosProfileMapping}

abbrev pub qos_e_mapping : QosProfileMapping
qos_e_mapping = record {
  fiveqi = 1;
  priority = 2;
  packet_delay_budget = 100;
  packet_error_rate = 1000;
  max_data_burst = none;
  is_gbr = true;
  guaranteed_uplink_rate = some "64 Kbps";
  guaranteed_downlink_rate = some "64 Kbps";
  max_uplink_rate = some "128 Kbps";
  max_downlink_rate = some "128 Kbps";
}

abbrev pub qos_s_mapping : QosProfileMapping
qos_s_mapping = record {
  fiveqi = 2;
  priority = 4;
  packet_delay_budget = 150;
  packet_error_rate = 1000;
  max_data_burst = none;
  is_gbr = true;
  guaranteed_uplink_rate = some "384 Kbps";
  guaranteed_downlink_rate = some "384 Kbps";
  max_uplink_rate = some "512 Kbps";
  max_downlink_rate = some "512 Kbps";
}

abbrev pub qos_m_mapping : QosProfileMapping
qos_m_mapping = record {
  fiveqi = 3;
  priority = 3;
  packet_delay_budget = 50;
  packet_error_rate = 1000;
  max_data_burst = none;
  is_gbr = true;
  guaranteed_uplink_rate = some "512 Kbps";
  guaranteed_downlink_rate = some "512 Kbps";
  max_uplink_rate = some "1024 Kbps";
  max_downlink_rate = some "1024 Kbps";
}

abbrev pub qos_l_mapping : QosProfileMapping
qos_l_mapping = record {
  fiveqi = 4;
  priority = 5;
  packet_delay_budget = 300;
  packet_error_rate = 1;
  max_data_burst = none;
  is_gbr = true;
  guaranteed_uplink_rate = some "256 Kbps";
  guaranteed_downlink_rate = some "256 Kbps";
  max_uplink_rate = some "512 Kbps";
  max_downlink_rate = some "512 Kbps";
}

abbrev pub voice_mapping : QosProfileMapping
voice_mapping = record {
  fiveqi = 1;
  priority = 2;
  packet_delay_budget = 100;
  packet_error_rate = 1000;
  max_data_burst = none;
  is_gbr = true;
  guaranteed_uplink_rate = some "64 Kbps";
  guaranteed_downlink_rate = some "64 Kbps";
  max_uplink_rate = some "128 Kbps";
  max_downlink_rate = some "128 Kbps";
}

abbrev pub video_mapping : QosProfileMapping
video_mapping = record {
  fiveqi = 2;
  priority = 4;
  packet_delay_budget = 150;
  packet_error_rate = 1000;
  max_data_burst = none;
  is_gbr = true;
  guaranteed_uplink_rate = some "1024 Kbps";
  guaranteed_downlink_rate = some "2048 Kbps";
  max_uplink_rate = some "2048 Kbps";
  max_downlink_rate = some "4096 Kbps";
}

abbrev pub game_mapping : QosProfileMapping
game_mapping = record {
  fiveqi = 3;
  priority = 3;
  packet_delay_budget = 50;
  packet_error_rate = 1000;
  max_data_burst = none;
  is_gbr = true;
  guaranteed_uplink_rate = some "512 Kbps";
  guaranteed_downlink_rate = some "512 Kbps";
  max_uplink_rate = some "1024 Kbps";
  max_downlink_rate = some "1024 Kbps";
}

abbrev pub data_mapping : QosProfileMapping
data_mapping = record {
  fiveqi = 9;
  priority = 9;
  packet_delay_budget = 300;
  packet_error_rate = 1;
  max_data_burst = none;
  is_gbr = false;
  guaranteed_uplink_rate = none;
  guaranteed_downlink_rate = none;
  max_uplink_rate = none;
  max_downlink_rate = none;
}

abbrev pub premium_mapping : QosProfileMapping
premium_mapping = record {
  fiveqi = 7;
  priority = 6;
  packet_delay_budget = 100;
  packet_error_rate = 1000;
  max_data_burst = none;
  is_gbr = true;
  guaranteed_uplink_rate = some "5 Mbps";
  guaranteed_downlink_rate = some "5 Mbps";
  max_uplink_rate = some "10 Mbps";
  max_downlink_rate = some "10 Mbps";
}

abbrev pub enterprise_mapping : QosProfileMapping
enterprise_mapping = record {
  fiveqi = 8;
  priority = 7;
  packet_delay_budget = 300;
  packet_error_rate = 1;
  max_data_burst = none;
  is_gbr = true;
  guaranteed_uplink_rate = some "1 Gbps";
  guaranteed_downlink_rate = some "1 Gbps";
  max_uplink_rate = some "10 Gbps";
  max_downlink_rate = some "10 Gbps";
}

unfoldable pub default_mappings : Map QosProfileMapping
default_mappings = put "enterprise" enterprise_mapping (
    put "premium" premium_mapping (
      put "data" data_mapping (
        put "game" game_mapping (
          put "video" video_mapping (
            put "voice" voice_mapping (
              put "QOS_L" qos_l_mapping (
                put "QOS_M" qos_m_mapping
                  (put "QOS_S" qos_s_mapping (put "QOS_E" qos_e_mapping empty)))))))))

-- In seconds.
unfoldable pub default_max_durations : Map ℕ
default_max_durations = put "enterprise" 28800 (
    put "premium" 43200 (
      put "data" 86400 (
        put "game" 28800 (
          put "video" 14400 (
            put "voice" 7200 (
              put "QOS_L" 28800
                (put "QOS_M" 14400 (put "QOS_S" 7200 (put "QOS_E" 3600 empty)))))))))

abbrev pub supported_profiles : List String
supported_profiles =
    "QOS_E" ∷ "QOS_S" ∷ "QOS_M" ∷ "QOS_L" ∷ "voice" ∷ "video" ∷ "game" ∷ "data" ∷ "premium"
    ∷ "enterprise" ∷ []
