-- ===== src/Tests/Storage.antt =====
-- The queue of reviews at concrete logs.
use mathlib.Core.List.{Perm}
use proto_v2_engine.Base.{
  List, ◌∷◌, values, take, String, lstrip, rstrip, get, ◌≡◌, refl, none, some, [], put, err, ◌==◌,
  if◌then◌else◌,
}
use proto_v2_engine.Json.{Json, Fields, str, get_json, is_truthy, put_field, end, field, value_at}
use proto_v2_engine.Storage.ApprovalQueue.{
  Log, Review, append_record, update_record, enqueue, mark_status, update_status, normal_status,
  get_by_id, merge_latest_views, invalid_status,
}
use proto_v2_engine.Storage.ApprovalQueue.Recent.{
  selected, list_recent, IsNewestFirst, list_recent-IsNewestFirst,
}
use proto_v2_engine.Storage.ApprovalQueue.Views.{IsReviewed, update_status-views}

abbrev proposal : Fields
proposal = field "proposal_id" (str "P1") (field "channel" (str "fnb") end)

abbrev review : Review
review = record { reviewer_id = "kim"; reviewer_role = "human"; notes = none; metadata = end }

abbrev two_reviews : Log
two_reviews = (enqueue "A2" "10:01" proposal (enqueue "A1" "10:00" proposal []).1).1

abbrev after_review : Log
after_review = append_record (update_record "A1" "10:02" "APPROVED" review) two_reviews

update_status-views_example :
    (s : String) × (old v : Fields) × (normal_status " approved" ≡ some s)
    × (get_by_id two_reviews "A1" ≡ some old)
    × (get_by_id after_review "A1" ≡ some v)
    × IsReviewed old v s review
    × (get_by_id after_review "A2" ≡ (if "A1" == "A2" then some v else get_by_id two_reviews "A2"))
unfolding enqueue update_status value_at put
update_status-views_example =
    update_status-views two_reviews after_review "A1" "10:02" " approved" review "A2" refl refl

unknown_status :
    mark_status "A1" "10:02" "done" none two_reviews ≡ (err invalid_status, two_reviews)
unfolding mark_status
unknown_status = refl

abbrev no_text : Json → String
no_text _ = ""

list_recent-IsNewestFirst_example :
    (items : List Fields) × (list_recent no_text 1 (some "pending ") after_review ≡ take 1 items)
    × Perm items (selected no_text (some "pending ") (values (merge_latest_views after_review)))
    × IsNewestFirst no_text items
list_recent-IsNewestFirst_example =
    list_recent-IsNewestFirst no_text 1 (some "pending ") after_review

ids : List Fields → List Json
ids [] = []
ids (x ∷ xs) = get_json x "approval_id" ∷ ids xs

newest_pending : ids (list_recent no_text 5 none two_reviews) ≡ str "A2" ∷ str "A1" ∷ []
unfolding enqueue list_recent ids values merge_latest_views value_at put get is_truthy
newest_pending = refl

only_pending : ids (list_recent no_text 5 (some " pending") after_review) ≡ str "A2" ∷ []
unfolding enqueue list_recent ids values merge_latest_views value_at put get is_truthy put_field
    lstrip rstrip
only_pending = refl
