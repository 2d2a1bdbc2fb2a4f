-- ===== src/Sdk/Sse.antt =====
-- sdk/autotree_sdk/sse.py: the payloads of a stream of lines. A line is its list of characters, as
-- `iter_lines` of httpx yields it, without its end.
mod Tests
use autotree.Base.{
  ℕ, ◌≡◌, refl, ap, ◌∙◌, Bool, true, false, not, Option, none, some, List, [], ◌∷◌, ◌++◌, map,
  arith, ◌==◌, if◌then◌else◌, list_equal, append_assoc, append-nil, sym, Bool-cases, inl, inr,
  Option-cases, All,
}

abbrev pub Line : Type 0
Line = List ℕ

-- the characters `:`, space and newline, the field name `data`, and the payload DONE in brackets
abbrev colon : ℕ
colon = 58

abbrev blank : ℕ
blank = 32

abbrev newline : ℕ
newline = 10

abbrev data_field : Line
data_field = 100 ∷ (97 ∷ (116 ∷ (97 ∷ [])))

abbrev done_payload : Line
done_payload = 91 ∷ (68 ∷ (79 ∷ (78 ∷ (69 ∷ (93 ∷ [])))))

abbrev is_done : Line → Bool
is_done = list_equal ◌==◌ done_payload

-- `line.partition(":")`, with no value where there is no separator
abbrev partition : Line → Line × Option Line
partition [] = ([], none)
partition (c ∷ cs) =
    let (field, value) = partition cs in if c == colon then ([], some cs) else (c ∷ field, value)

abbrev strip_blank : Line → Line
strip_blank [] = []
strip_blank (c ∷ cs) = if c == blank then cs else c ∷ cs

abbrev value_of : Line × Option Line → Option Line
value_of (field, none) = none
value_of (field, some value) =
    if list_equal ◌==◌ field data_field then some (strip_blank value) else none

abbrev is_comment : Line → Bool
is_comment [] = false
is_comment (c ∷ cs) = c == colon

-- `"\n".join(data_lines)`
abbrev pub join_lines : List Line → Line
join_lines [] = []
join_lines (l ∷ []) = l
join_lines (l ∷ (m ∷ rest)) = l ++ newline ∷ join_lines (m ∷ rest)

-- what a line that is neither empty nor a comment adds to the data
abbrev with_data : List Line → Option Line → List Line
with_data lines none = lines
with_data lines (some value) = lines ++ value ∷ []

abbrev last_payload : List Line → List Line
last_payload [] = []
last_payload (l ∷ rest) = if is_done (join_lines (l ∷ rest)) then [] else join_lines (l ∷ rest) ∷ []

-- an empty line ends the data, and the bracketed DONE ends the stream
abbrev flush : List Line → List Line → List Line
flush [] later = later
flush (l ∷ rest) later =
    if is_done (join_lines (l ∷ rest)) then [] else join_lines (l ∷ rest) ∷ later

unfoldable pub payloads : List Line → List Line → List Line
payloads data_lines [] = last_payload data_lines
payloads data_lines ([] ∷ rest) = flush data_lines (payloads [] rest)
payloads data_lines ((c ∷ cs) ∷ rest) =
    if is_comment (c ∷ cs)
    then payloads data_lines rest
    else payloads (with_data data_lines (value_of (partition (c ∷ cs)))) rest

unfoldable pub iter_sse_data : List Line → List Line
iter_sse_data lines = payloads [] lines

-- a server that writes each line of an event after `data: `, and an empty line after the event
abbrev pub data_line : Line → Line
data_line l = data_field ++ colon ∷ (blank ∷ l)

abbrev write_event : List Line → List Line
write_event [] = [] ∷ []
write_event (l ∷ rest) = data_line l ∷ write_event rest

abbrev pub write_stream : List (List Line) → List Line
write_stream [] = write_event (done_payload ∷ [])
write_stream (event ∷ rest) = write_event event ++ write_stream rest

-- an event that has data and does not end the stream
abbrev IsEvent : List Line → Type 0
IsEvent [] = false ≡ true
IsEvent (l ∷ rest) = is_done (join_lines (l ∷ rest)) ≡ false

read_event :
    (seen event : List Line) (later : List Line)
    → payloads seen (write_event event ++ later) ≡ flush (seen ++ event) (payloads [] later)
unfolding payloads list_equal
read_event seen [] later = ap (λ xs. flush xs (payloads [] later)) (sym (append-nil seen))
read_event seen (l ∷ rest) later =
    read_event (seen ++ l ∷ []) rest later
    ∙ ap (λ xs. flush xs (payloads [] later)) (append_assoc seen (l ∷ []) rest)

-- What a server writes as events, each of one or more lines and none of them the bracketed DONE, the client
-- reads back as the joined lines of each event, in order, whatever follows the final DONE.
pub iter_sse_data-write_stream :
    (events : List (List Line)) (later : List Line)
    → All IsEvent events
    → iter_sse_data (write_stream events ++ later) ≡ map join_lines events
unfolding iter_sse_data payloads list_equal
iter_sse_data-write_stream [] later h = refl
iter_sse_data-write_stream ([] ∷ events) later h = ground (arith, h.0)
iter_sse_data-write_stream ((l ∷ rest) ∷ events) later h =
    ap (payloads []) (append_assoc (write_event (l ∷ rest)) (write_stream events) later)
    ∙ read_event [] (l ∷ rest) (write_stream events ++ later)
    ∙ rw (h.0) (ap (λ xs. join_lines (l ∷ rest) ∷ xs) (iter_sse_data-write_stream events later h.1))

same_branches :
    (b : Bool) {x x' y y' : List Line}
    → x ≡ x'
    → y ≡ y'
    → (if b then x else y) ≡ (if b then x' else y')
same_branches true p q = p
same_branches false p q = q

keep_alive :
    (seen before after : List Line) (text : Line)
    → payloads seen (before ++ (colon ∷ text) ∷ after) ≡ payloads seen (before ++ after)
unfolding payloads
keep_alive seen [] after text = refl
keep_alive seen ([] ∷ before) after text = ap (flush seen) (keep_alive [] before after text)
keep_alive seen ((c ∷ cs) ∷ before) after text =
    same_branches (is_comment (c ∷ cs)) (keep_alive seen before after text)
      (keep_alive (with_data seen (value_of (partition (c ∷ cs)))) before after text)

-- A comment line anywhere in a stream changes nothing of what is read.
iter_sse_data-comment :
    (before after : List Line) (text : Line)
    → iter_sse_data (before ++ (colon ∷ text) ∷ after) ≡ iter_sse_data (before ++ after)
unfolding iter_sse_data
iter_sse_data-comment before after text = keep_alive [] before after text
