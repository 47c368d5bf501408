-- ===== src/Coding/Tests.antt =====
-- The properties of the codings at concrete inputs.
use lsmkv.Base.{ℕ, ◌≡◌, arith, List, [], ◌∷◌, ◌++◌}
use lsmkv.Coding.{decode_fixed, encode_fixed}
use lsmkv.Coding.RoundTrip.{decode_fixed-encode_fixed}

decode_fixed-encode_fixed_example : decode_fixed 4 (encode_fixed 4 70000 ++ (9 ∷ [])) ≡ 70000
decode_fixed-encode_fixed_example = decode_fixed-encode_fixed 4 70000 (9 ∷ []) (omega arith)

abbrev four_bytes : List ℕ
four_bytes = 1 ∷ 2 ∷ 255 ∷ 4 ∷ []
