-- ===== src/Mux/Metadata/Parse.antt =====
-- `parse_metadata` past its first four bytes.
use v2ray.Prelude.{suc, ℕ, ◌≡◌, refl, List, [], ◌∷◌, arith, length, of_be16, le→ltb}
use v2ray.Common.Result.{ok, ◌>>=◌}
use v2ray.Common.Result.Access.{slice_rest}
use v2ray.Mux.Metadata.{
  parse_metadata, parse_target, status_of, FrameMetadata, Target, SessionStatus,
}

abbrev pub finish : ℕ → ℕ → SessionStatus → Target → FrameMetadata
finish session_id option status t = record {
  session_id = session_id;
  status = status;
  option = option;
  target = t.0;
  global_id = t.1;
}

pub parse_metadata_head :
    (hi lo code option : ℕ) (rest : List ℕ)
    → parse_metadata (hi ∷ lo ∷ code ∷ option ∷ rest) ≡ (
        status_of code >>= λ status.
        parse_target status option rest >>= λ t. ok (finish (of_be16 hi lo) option status t))
unfolding parse_metadata
parse_metadata_head hi lo code option rest = rw (
  le→ltb (suc (suc (suc (suc (length rest))))) 4 (omega arith),
  slice_rest (hi ∷ lo ∷ code ∷ option ∷ []) rest 4 refl,
)
