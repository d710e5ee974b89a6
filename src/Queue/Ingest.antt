-- ===== src/Queue/Ingest.antt =====
-- What `UploadQueue.ingest` does to the outstanding revisions.
use session_search.Base.{
  ◌≡◌, ◌≢◌, ◌⊎◌, refl, String, Bool, true, false, Option, none, some, List, [], ◌∷◌, ◌++◌, arith,
  ◌==◌, string_eq, exists, find, if◌then◌else◌,
}
use session_search.Base.Result.{Result, ok, err, value_error}
use session_search.Records.{SessionRevision}
use session_search.Queue.Table.{Raw, Row, UploadQueue, has_request}
use session_search.Queue.Order.{Ascending, insert_or_ignore-Ascending}
use session_search.Queue.Fifo.{outstanding}
use session_search.Queue.{Receipt, ingest, record_capture, new_row}

pub exists-find-some :
    (p : Row → Bool) (rs : List Row) (r : Row) → find p rs ≡ some r → exists p rs ≡ true
unfolding exists find
exists-find-some p [] r h = cc
exists-find-some p (x ∷ rs) r h = ground (arith, exists-find-some p rs r)

pub exists-find-none : (p : Row → Bool) (rs : List Row) → find p rs ≡ none → exists p rs ≡ false
unfolding exists find
exists-find-none p [] h = refl
exists-find-none p (x ∷ rs) h = ground (arith, exists-find-none p rs)

module _ (revision_of : SessionRevision → String) (q : UploadQueue) (session : SessionRevision)
    (request_id : String) (checkpoint : Option (String × String)) (raw : Option Raw) where
  abbrev row : Row
  row = new_row revision_of q session request_id raw

  -- What a call may end with.
  abbrev pub Enqueued : Result (Receipt × UploadQueue) → Type 0
  Enqueued (err e) =
      (r : Row) × (find (has_request request_id) q.pending ≡ some r)
      × (r.revision ≢ revision_of session)
      × (e ≡ value_error)
  Enqueued (ok (receipt, q')) =
      (q'.acknowledged ≡ q.acknowledged)
      × (receipt.revision ≡ revision_of session)
      × (((receipt.duplicate ≡ true)
            × (exists (has_request request_id) q.pending ≡ true)
            × (q'.pending ≡ q.pending))
          ⊎ ((receipt.duplicate ≡ false)
              × (exists (has_request request_id) q.pending ≡ false)
              × ((s : String)
                  → outstanding s q' ≡ (
                      if s == session.session_id
                      then outstanding s q ++ revision_of session ∷ []
                      else outstanding s q))))

  abbrev receipt_of : Bool → Receipt
  receipt_of duplicate = record {
    session_id = session.session_id;
    revision = revision_of session;
    duplicate = duplicate;
  }

  abbrev after : UploadQueue
  after = record_capture revision_of q session request_id checkpoint raw

  -- A row added keeps the table in the order of its keys.
  pub ingest-Ascending :
      (receipt : Receipt) (q' : UploadQueue)
      → ingest revision_of q session request_id checkpoint raw ≡ ok (receipt, q')
      → Ascending q.pending
      → Ascending q'.pending
  unfolding ingest record_capture
  ingest-Ascending receipt q' h a = ground (arith, insert_or_ignore-Ascending row q.pending refl a)
