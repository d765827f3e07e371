-- ===== src/Objects/Virtual.antt =====
-- `VirtKeyMap` of lmd/response.go with the prefixed keys that `InitObjects` of lmd/objects.go adds.
-- Whether Go's range loop there also visits the keys that it has just added is left open by Go, so
-- the keys with two prefixes are not in the model.
use lmd.Prelude.{ℕ, none, some, [], ◌∷◌, ◌++◌, Bytes, codes, String}
use lmd.Prelude.Int.{ℤ, pos, negsuc}
use lmd.Prelude.Dict.{Dict, lookup, insert}
use lmd.Objects.{ColumnType, no_col_type, string_col, int_col, time_col, float_col}

pub record VirtKey : Type 0 where
  pub index : ℤ
  pub key : Bytes
  pub col_type : ColumnType

-- an entry with the index -(n + 1)
abbrev entry : String → ℕ → String → ColumnType → Bytes × VirtKey
entry name n key col_type =
    (codes name, record { index = negsuc n; key = codes key; col_type = col_type })

abbrev pub virt_keys : Dict VirtKey
virt_keys =
    entry "key" 0 "PeerKey" string_col
    ∷ entry "name" 1 "PeerName" string_col
    ∷ entry "addr" 3 "PeerAddr" string_col
    ∷ entry "status" 4 "PeerStatus" int_col
    ∷ entry "bytes_send" 5 "BytesSend" int_col
    ∷ entry "bytes_received" 6 "BytesReceived" int_col
    ∷ entry "queries" 7 "Querys" int_col
    ∷ entry "last_error" 8 "LastError" string_col
    ∷ entry "last_online" 9 "LastOnline" time_col
    ∷ entry "last_update" 10 "LastUpdate" time_col
    ∷ entry "response_time" 11 "ReponseTime" float_col
    ∷ entry "state_order" 12 "" int_col
    ∷ entry "last_state_change_order" 13 "" int_col
    ∷ entry "has_long_plugin_output" 14 "" int_col
    ∷ entry "idling" 15 "Idling" int_col
    ∷ entry "last_query" 16 "LastQuery" time_col
    ∷ []

pub with_prefixes : Dict VirtKey → Dict VirtKey → Dict VirtKey
with_prefixes [] m = m
with_prefixes ((name, dat) ∷ rest) m = with_prefixes rest (elim dat.key [
  | [] ↦ insert (codes "host_" ++ name) dat m
  | _ ∷ _ ↦ insert (codes "host_peer_" ++ name) dat (insert (codes "peer_" ++ name) dat m)
])

unfoldable pub virt_key_map : Dict VirtKey
unfolding with_prefixes insert
virt_key_map = with_prefixes virt_keys virt_keys

-- `VirtKeyMap[name]`
unfoldable pub virt_key : Bytes → VirtKey
unfolding virt_key_map lookup
virt_key name = elim (lookup name virt_key_map) [
  | none ↦ record { index = pos 0; key = []; col_type = no_col_type }
  | some dat ↦ dat
]
