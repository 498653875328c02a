-- ===== src/Examples/Agents.antt =====
-- The theorem on the chat agent, applied to a model that asks for a shell.
use minti.Base.{true, false, some, List, [], ◌∷◌, ◌≤◌}
use minti.Agent.{ToolCall, Turn, prompt_turn, ModelReply, deny, approve, Env, run}
use minti.Agent.Approvals.{Approvals, await_begin, new_channel_approver, resolve_send}
use minti.Agent.Gating.{IsGated, cap_of, run-IsGated}

abbrev shell_call : ToolCall
shell_call = record { id = "c1"; name = "exec"; input = "" }

-- The model asks for the shell as long as it has only the prompt before it, and then ends.
abbrev reply : List Turn → ModelReply
reply (prompt_turn text ∷ []) = record { text = ""; tool_calls = shell_call ∷ [] }
reply _ = record { text = "done"; tool_calls = [] }

abbrev env : Env
env = record {
  catalog = record { tools = []; wire_by_name = ("exec", "mcp-shell.exec") ∷ [] };
  call = λ s transcript. some (reply transcript);
  approver = some (λ s tc wire. some approve);
  parses = λ input. true;
  cut = λ s n. s;
  execute = λ s wire input. some (record { content = []; is_error = false });
}

run-IsGated_example :
    IsGated env (run env 3 "hi").0.executed × ((run env 3 "hi").0.model_calls ≤ cap_of 3)
run-IsGated_example = run-IsGated env 3 "hi"

abbrev approvals : Approvals
approvals = (await_begin "c1" (new_channel_approver 0)).0

-- A denial that comes after the approval.
abbrev denied_late : Approvals
denied_late = resolve_send 0 deny (resolve_send 0 approve approvals)
