-- ===== src/Handler/Dispatch.antt =====
-- pkg/ws/handler.go: `HandleMessage` and the table of signed actions.
use forager.Prelude.{
  Bool, true, false, ◌||◌, String, Option, none, some, List, [], ◌∷◌, ◌==◌, string_eq,
  if◌then◌else◌,
}
use forager.Signing.Verifier.{Verifier, Refusal, verify}
use forager.Handler.{Envelope, Reply, no_code, signature_failed, error_reply, State, World}
use forager.Handler.Requests.{handle_request}
use forager.Handler.Sync.{is_member, handle_config_sync, handle_test_datasource_config}

abbrev pub signed_actions : List String
signed_actions =
    "datasource_config_sync" ∷ "db_query" ∷ "db_execute" ∷ "db_metadata" ∷ "ssh_command"
    ∷ "ssh_upload" ∷ "ssh_download" ∷ "ssh_list_dir" ∷ "http_request" ∷ "mcp_request"
    ∷ "mongo_query" ∷ "mongo_aggregate" ∷ "mongo_server_status" ∷ "mongo_repl_status"
    ∷ "mongo_collection_stats" ∷ "mongo_current_ops" ∷ "mongo_db_stats" ∷ "mongo_list_databases"
    ∷ "mongo_list_collections" ∷ "redis_command" ∷ "redis_info" ∷ "redis_info_section"
    ∷ "redis_slowlog" ∷ "redis_client_list" ∷ "redis_memory_stats" ∷ "redis_cluster_info"
    ∷ "redis_keyspace_stats" ∷ "kafka_consumer_lag" ∷ "kafka_consumer_groups"
    ∷ "kafka_consumer_group_describe" ∷ "kafka_topics" ∷ "kafka_topic_describe" ∷ "kafka_brokers"
    ∷ "kafka_topic_offsets" ∷ "test_datasource_config" ∷ "discovery_sweep" ∷ "discovery_ldap"
    ∷ "discovery_inventory" ∷ []

-- The action of the legacy format stands in the body.
unfoldable pub effective_action : Envelope → String
effective_action env = if env.action == "" then env.body_action_name else env.action

unfoldable pub is_signed : String → Bool
is_signed action = is_member action signed_actions

module _ (w : World) where
  abbrev pub some_reply : State × Reply → State × Option Reply
  some_reply (s, r) = (s, some r)

  unfoldable pub route : String → Envelope → State → State × Option Reply
  route msg env s =
      if env.action == "datasource_config_sync"
      then handle_config_sync w msg env.request_id s
      else if env.action == "test_datasource_config"
      then handle_test_datasource_config w msg env.request_id s
      else some_reply (handle_request w msg env.request_id env.datasource_id s)

  abbrev pub after_verify :
      String → Envelope → Bool → Verifier × Option Refusal → State → State × Option Reply
  after_verify msg env enabled (v, none) s = route msg env (record s { verifier = some v })
  after_verify msg env true (v, some e) s = (
    record s { verifier = some v },
    some (error_reply env.request_id 403 no_code signature_failed),
  )
  after_verify msg env false (v, some e) s = route msg env (record s { verifier = some v })

  abbrev pub check_signature : String → Envelope → Option Verifier → State → State × Option Reply
  check_signature msg env none s = route msg env s
  check_signature msg env (some v) s =
      if is_signed (effective_action env) || v.enabled
      then after_verify msg env v.enabled (verify w.signing w.readings v msg) s
      else route msg env s

  -- A message that does not decode is an error, with no reply.
  unfoldable pub handle_message : String → State → State × Option Reply
  handle_message msg s = elim (w.unmarshal_envelope msg) [
    | none ↦ (s, none)
    | some env ↦ check_signature msg env s.verifier s
  ]
