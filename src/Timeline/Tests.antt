-- ===== src/Timeline/Tests.antt =====
-- The rundown on a concrete table.
use live_ops_backend.Prelude.{String, ◌≡◌, refl, List, [], ◌∷◌, none, some, World}
use live_ops_backend.Prelude.Table.{Table, list_table}
use live_ops_backend.Timeline.{
  TimelineBlock, BlockStatus, Event, start, reorder_blocks, reorder_from,
}
use live_ops_backend.Timeline.Single.Calls.{Call, starting, completing, after_all, after_all-Single}
use live_ops_backend.Timeline.Single.Writes.{Single}
use live_ops_backend.Timeline.Race.{interleaved, interleaved_starts_both_active}
use live_ops_backend.Timeline.Order.{row, OrderedFrom, reorder_blocks-OrderedFrom}

abbrev db : Table TimelineBlock
db = list_table (λ (b : TimelineBlock). b.id)

abbrev block : String → TimelineBlock
block id = record {
  id = id;
  production_id = "p";
  title = "Intro";
  duration_ms = 1500;
  status = BlockStatus.pending;
  order = 0;
  linked_scene = none;
  notes = none;
  start_time = none;
  end_time = none;
}

abbrev guest_in : String → String
guest_in notes = ""

abbrev begin : World db.Store Event
begin = record { db = block "a" ∷ block "b" ∷ []; events = [] }

abbrev calls : List Call
calls = starting 1 "a" ∷ starting 2 "b" ∷ completing 3 "b" ∷ starting 4 "a" ∷ []

after_all-Single_example : Single db "p" (after_all db (λ b. refl) guest_in "p" calls begin).db
after_all-Single_example =
    after_all-Single db (λ b. refl) guest_in "p" calls begin ("a", ((λ e. cc), ((λ e. cc), tt)))

interleaved_starts_example :
    (row db "a" (interleaved db (λ b. refl) "p" 1 "a" "b" begin).db ≡ some (start 1 (block "a")))
    × (row db "b" (interleaved db (λ b. refl) "p" 1 "a" "b" begin).db ≡ some (start 1 (block "b")))
interleaved_starts_example =
    interleaved_starts_both_active db (λ b. refl) "p" 1 "a" "b" begin (block "a") (block "b") refl
      refl refl refl refl refl refl

abbrev reordered : World db.Store Event
unfolding reorder_blocks reorder_from
reordered = (reorder_blocks db "p" ("b" ∷ "a" ∷ []) begin).1

reorder_blocks-OrderedFrom_example : OrderedFrom db (λ b. refl) 0 ("b" ∷ "a" ∷ []) reordered.db
unfolding reorder_blocks reorder_from
reorder_blocks-OrderedFrom_example =
    reorder_blocks-OrderedFrom db (λ b. refl) "p" ("b" ∷ "a" ∷ []) begin reordered
      ((refl, tt), (tt, tt)) refl
