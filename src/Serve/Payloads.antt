-- ===== src/Serve/Payloads.antt =====
-- What the middleware of serve/autotree_serve/enterprise.py reads of a request: its headers, its body
-- and the tokens that it asks for.
use autotree.Base.{
  ℕ, zero, suc, ◌+◌, ◌/◌, ◌%◌, Bool, true, false, not, ◌||◌, Option, none, some, List, [], ◌∷◌,
  ◌++◌, leb, if◌then◌else◌, Text, Table, store, same_text, ℤ, positive,
}
use autotree.Serve.Json.{Json, object, Members, no_members, member_of, as_integer, as_object}
use autotree.Serve.Auth.{lower}
use autotree.Serve.Words

-- one message of `receive`: a part of the body, with `more_body`, or the end of the connection
pub data Received : Type 0 where
  request : (body : Text) (more_body : Bool) → Received
  disconnect : Received

abbrev pub is_completion : Text → Bool
is_completion route = same_text route Words.chat_route || same_text route Words.tree_route

-- the dict of headers, in which the last of a repeated name stands
abbrev pub header_dict : Table Text → List (Text × Text) → Table Text
header_dict d [] = d
header_dict d ((key, value) ∷ rest) = header_dict (store (lower key) value d) rest

-- `_read_body`, with the messages that the application may still receive left out
abbrev pub read_body : List Received → Option Text
read_body [] = none
read_body (disconnect ∷ rest) = some []
read_body (request body false ∷ rest) = some body
read_body (request body true ∷ rest) = elim (read_body rest) [
  | none ↦ none
  | some more ↦ some (body ++ more)
]

abbrev pub as_positive : Option ℤ → Option ℕ
as_positive none = none
as_positive (some n) = positive n

abbrev pub budget : Option Members → Option ℕ
budget none = none
budget (some tree) = as_positive (as_integer (member_of Words.budget_tokens_key tree))

abbrev pub first_of : Option ℕ → ℕ → ℕ
first_of none later = later
first_of (some n) later = n

-- `_requested_tokens`
unfoldable pub requested_tokens : Text → Members → ℕ
requested_tokens route payload =
    if not (is_completion route)
    then 0
    else first_of (budget (as_object (member_of Words.tree_key payload))) (
        first_of (as_positive (as_integer (member_of Words.max_completion_tokens_key payload)))
          (first_of (as_positive (as_integer (member_of Words.max_tokens_key payload))) 16))

-- `str(n)`, on fuel: a number has at most as many digits as it is large
abbrev decimal_from : ℕ → ℕ → Text → Text
decimal_from zero n rest = (48 + n % 10) ∷ rest
decimal_from (suc fuel) n rest =
    let more = decimal_from fuel (n / 10) ((48 + n % 10) ∷ rest) in
    if leb n 9 then (48 + n) ∷ rest else more

abbrev pub decimal : ℕ → Text
decimal n = decimal_from n n []

-- `_json_object`
abbrev object_or_empty : Option Json → Members
object_or_empty (some (object m)) = m
object_or_empty _ = no_members

abbrev pub json_object : (Text → Option Json) → Text → Members
json_object parse [] = no_members
json_object parse (c ∷ cs) = object_or_empty (parse (c ∷ cs))
