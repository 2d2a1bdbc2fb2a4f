-- ===== src/Sdk/Sse/Tests.antt =====
-- Two events, the first of two lines.
use autotree.Base.{list_equal, ◌≡◌, refl, List, [], ◌∷◌, ◌++◌, map}
use autotree.Sdk.Sse.{Line, iter_sse_data, write_stream, join_lines, iter_sse_data-write_stream}

abbrev events : List (List Line)
events = ((104 ∷ []) ∷ ((105 ∷ []) ∷ [])) ∷ (((91 ∷ (68 ∷ [])) ∷ []) ∷ [])

abbrev trailer : List Line
trailer = (100 ∷ []) ∷ []

events_read :
    iter_sse_data (write_stream events) ≡ (104 ∷ (10 ∷ (105 ∷ []))) ∷ ((91 ∷ (68 ∷ [])) ∷ [])
unfolding list_equal
events_read = iter_sse_data-write_stream events [] (refl, (refl, tt))

iter_sse_data-write_stream_example :
    iter_sse_data (write_stream events ++ trailer) ≡ map join_lines events
unfolding list_equal
iter_sse_data-write_stream_example = iter_sse_data-write_stream events trailer (refl, (refl, tt))
