-- ===== src/Gateway/Header.antt =====
-- bearerToken of internal/gateway/middleware/auth.go, with what it uses of Go's strings package.
use Prim.Native.Char.{Char, code}
use Prim.Native.String.{String, [], ◌∷◌, len, slice}
use chain_pulse.Prelude.{
  ◌+◌, Bool, true, false, not, ◌&&◌, ◌||◌, ◌==◌, Option, none, some, leb, nat_eq, trim_space,
  if◌then◌else◌,
}

abbrev pub is_upper : Char → Bool
is_upper c = leb 65 (code c) && leb (code c) 90

abbrev pub same_letter : Char → Char → Bool
same_letter c d =
    nat_eq (code c) (code d)
    || (is_upper c && nat_eq (code c + 32) (code d))
    || (is_upper d && nat_eq (code d + 32) (code c))

-- strings.EqualFold where one of the texts is the prefix below: none of its letters folds to a
-- character outside ASCII.
abbrev pub equal_fold : String → String → Bool
equal_fold [] [] = true
equal_fold [] (d ∷ t) = false
equal_fold (c ∷ s) [] = false
equal_fold (c ∷ s) (d ∷ t) = same_letter c d && equal_fold s t

abbrev pub bearer_prefix : String
bearer_prefix = "bearer "

unfoldable pub bearer_token : String → Option String
unfolding trim_space
bearer_token header =
    if leb (len header) (len bearer_prefix)
      || not (equal_fold (slice header 0 (len bearer_prefix)) bearer_prefix)
    then none
    else let token = trim_space (slice header (len bearer_prefix) (len header)) in
      if token == "" then none else some token
