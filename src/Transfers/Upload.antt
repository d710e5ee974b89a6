-- ===== src/Transfers/Upload.antt =====
-- The client's side of an upload: the loop of `_upload_object` in
-- src/session_search/interfaces/client.py, over the calls of a server.
pub mod Rounds
pub mod Ends
use session_search.Base.{
  ℕ, zero, suc, ◌+◌, ◌-◌, ◌≤◌, ◌<◌, ◌≡◌, ◌⊎◌, refl, ap, ◌∙◌, String, Bool, true, false, not, ◌&&◌,
  ◌||◌, inl, inr, none, List, [], ◌∷◌, ◌++◌, arith, min, ltb, leb, ◌==◌, nat_eq, string_eq,
  if◌then◌else◌, Bool-cases, length, length-take, length-drop, take, drop, upsert, lookup-upsert,
  is_digest,
}
use session_search.Base.Result.{Result, ok, err, runtime_error}
use session_search.Chunks.{Recipe}
use session_search.Transfers.{
  Setting, State, Progress, Surroundings, completed, stem, staged, retire, finish, append, status,
  max_chunk,
}
use session_search.Transfers.Complete.{Held, file-Held}

-- The loop of `_upload_object`. The fuel is one more than the bytes left; a `RemoteError` is a
-- `runtime_error`.
unfoldable pub upload_loop :
    {S : Type 0}
    → ℕ
    → (ℕ → ℕ → List ℕ → S → Result Progress × S)
    → ℕ
    → List ℕ
    → S
    → Result Progress × S
upload_loop zero put offset file s = (err runtime_error, s)
upload_loop (suc fuel) put offset file s =
    let total : ℕ = length file in
    let chunk : List ℕ = take (min max_chunk (total - offset)) (drop offset file) in
    let answer : Result Progress × _ = put offset total chunk s in
    let rest : Result Progress × _ = upload_loop fuel put (offset + length chunk) file answer.1 in
    elim answer.0 [
      | err e ↦ (err e, answer.1)
      | ok p ↦
          if not (p.offset == offset + length chunk)
          then (err runtime_error, answer.1)
          else if p.complete
          then (ok p, answer.1)
          else if length chunk == 0
          then (err runtime_error, answer.1)
          else rest
    ]

-- `_upload_object`
unfoldable pub upload_object :
    {S : Type 0}
    → (S → Result Progress × S)
    → (ℕ → ℕ → List ℕ → S → Result Progress × S)
    → List ℕ
    → S
    → Result Progress × S
upload_object ask put file s =
    let total : ℕ = length file in
    let (progress, s') = ask s in
    elim progress [
      | err e ↦ (err e, s')
      | ok p ↦
          if p.complete
          then if p.offset == total then (ok p, s') else (err runtime_error, s')
          else if leb p.offset total
          then upload_loop (suc (total - p.offset)) put p.offset file s'
          else (err runtime_error, s')
    ]
