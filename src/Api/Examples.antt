-- ===== src/Api/Examples.antt =====
-- Runs of internal/api/estimate.go and internal/api/assemble.go.
use proofgate.Base.{◌≡◌, ◌≢◌, refl, none, some, [], ◌∷◌, arith}
use proofgate.Base.Int.{pos}
use proofgate.Base.Bytes.{codes}
use proofgate.Api.{Choice, ChatResponse}
use proofgate.Api.Assemble.{Assembler, empty, add_all, chunks_from_response, response}
use proofgate.Api.Assemble.Laws.{canonical, assemble-chunks}

abbrev choice : Choice
choice = record {
  index = 0;
  message = record {
    role = codes "assistant";
    content = record { text = codes "Calling the tool."; parts = none };
    tool_calls =
        record {
          index = some (pos 3);
          id = codes "call_1";
          kind = codes "function";
          function = record { name = codes "search"; arguments = codes "{}" };
        }
        ∷ [];
  };
  finish_reason = codes "tool_calls";
}

abbrev answer : ChatResponse
answer = record {
  id = codes "chatcmpl-1";
  object = codes "chat.completion";
  created = 1700000000;
  model = codes "gpt";
  choices = choice ∷ [];
  usage = none;
}

answer_named : answer.id ≢ []
answer_named = ground arith

assemble-chunks_example :
    (a : Assembler) × (add_all empty (chunks_from_response answer 5) ≡ some a)
    × (response a ≡ canonical answer choice)
assemble-chunks_example = assemble-chunks answer 5 choice [] answer_named refl
