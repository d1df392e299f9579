-- ===== src/Tests/Chunks.antt =====
-- Examples: the chunks of a capture.
use robloxstudio_mcp.Bytes.{Bytes, drop}
use robloxstudio_mcp.Shared.{ℕ, ◌≡◌, refl, none, [], ◌∷◌, ◌++◌, get, ok, arith}
use robloxstudio_mcp.Captures.{Transfers}
use robloxstudio_mcp.Captures.Receive.{Holder, receive_loop, incapable, capture_no_table, no_table}
use robloxstudio_mcp.Captures.Chunks.{reading, holding, receive_loop-pixels, receive_loop-fuel}

abbrev silent : Holder (ℕ × Transfers)
silent = record {
  probe = λ w id. (w, incapable);
  capture = λ w id. (w, capture_no_table);
  read = λ w id offset count. (w, no_table);
  release = λ w id. w;
}

abbrev four_bytes : Bytes
four_bytes = 1 ∷ 2 ∷ 3 ∷ 4 ∷ []

abbrev one_held : Transfers
one_held = record { held = ("a", holding 0 four_bytes 0 100) ∷ []; next_stamp = 1 }

receive_loop-pixels_example :
    ((receive_loop 4 (reading (λ k. 7) (λ f. "") silent) (0, one_held) "a" 4 0 []).1
      ≡ ok ([] ++ drop 0 four_bytes))
    × (get "a"
          (receive_loop 4 (reading (λ k. 7) (λ f. "") silent) (0, one_held) "a" 4 0 []).0.1.held
        ≡ none)
unfolding get
receive_loop-pixels_example =
    receive_loop-pixels 4 (λ k. 7) (λ f. "") silent "a" 0 0 100 0 one_held four_bytes [] refl
      (λ k. omega arith) (omega arith) (omega arith)

receive_loop-fuel_example :
    receive_loop 4 silent (0, one_held) "a" 4 0 [] ≡ receive_loop 9 silent (0, one_held) "a" 4 0 []
receive_loop-fuel_example =
    receive_loop-fuel 4 9 silent (0, one_held) "a" 4 0 [] (omega arith) (omega arith)
