-- ===== src/Resp/Agents/Summaries.antt =====
-- internal/server/resp/handlers_consolidate.go
use cache_pot.Prelude.{
  ◌==◌, none, some, List, [], ◌∷◌, ◌++◌, Bytes, codes, beq, if◌then◌else◌, drop,
}
use cache_pot.Float.{Float64}
use cache_pot.Memory.{MemoryKind, episodic, parse_kind}
use cache_pot.Consolidate.{
  consolidate, ConsolidateResult, ConsolidateError, completion_failed, put_failed,
}
use cache_pot.Resp.Session.{to_upper}
use cache_pot.Resp.Wire.{WireReply, err_reply, bulk, null_bulk}
use cache_pot.Resp.Handlers.{arg, not_float_msg, syntax_msg}
use cache_pot.Resp.Handlers.Strings.{Parsed, parsed, refused}
use cache_pot.Resp.Agents.{AgentEnv, AgentHandling, default_memory_workspace}

-- The variables of the option loop of handleSummaryCreate.
pub record SummaryArgs : Type 0 where
  pub workspace : Bytes
  pub kind : MemoryKind
  pub dedup_threshold : Float64

abbrev pub default_summary_args : SummaryArgs
default_summary_args = record {
  workspace = default_memory_workspace;
  kind = episodic;
  dedup_threshold = 0;
}

-- The switch of handleSummaryCreate on one option and its value.
unfoldable pub summary_option : AgentEnv → Bytes → Bytes → SummaryArgs → Parsed SummaryArgs
summary_option env opt v p =
    let name = to_upper opt in
    if beq name (codes "WORKSPACE")
    then parsed (record p { workspace = v })
    else if beq name (codes "KIND")
    then elim (parse_kind v) [ none ↦ refused syntax_msg | some k ↦ parsed (record p { kind = k }) ]
    else if beq name (codes "DEDUP_THRESHOLD")
    then elim (env.parse_float v) [
      | none ↦ refused not_float_msg
      | some t ↦ parsed (record p { dedup_threshold = t })
    ]
    else refused syntax_msg

unfoldable pub summary_options : AgentEnv → List Bytes → SummaryArgs → Parsed SummaryArgs
unfolding summary_option
summary_options env [] p = parsed p
summary_options env (opt ∷ []) p = refused syntax_msg
summary_options env (opt ∷ v ∷ rest) p = elim (summary_option env opt v p) [
  | refused msg ↦ refused msg
  | parsed q ↦ summary_options env rest q
]

-- The text of an error of Consolidate, without the one that it wraps.
abbrev pub consolidate_error_text : ConsolidateError → Bytes
consolidate_error_text completion_failed = codes "consolidate: complete: "
consolidate_error_text put_failed = codes "consolidate: store summary: "

unfoldable pub summary_reply : AgentEnv → ConsolidateResult → WireReply
summary_reply env (some e, r) =
    err_reply (codes "ERR " ++ consolidate_error_text e ++ env.completion_error)
summary_reply env (none, r) = if r.source_count == 0 then null_bulk else bulk r.summary_id

-- handleSummaryCreate; it has no check of the workspace
unfoldable pub handle_summary_create : AgentHandling
unfolding summary_options summary_reply
handle_summary_create env a cs args w =
    elim (summary_options env (drop 2 args) default_summary_args) [
      | refused msg ↦ (err_reply msg, w)
      | parsed p ↦
          let (r, s) =
            consolidate env.fp env.embed_one env.new_id env.complete env.now env.now p.workspace
              (arg args 1) p.kind p.dedup_threshold w.memories in
          (summary_reply env r, record w { memories = s })
    ]
