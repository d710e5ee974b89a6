-- ===== src/Catalog/Digests.antt =====
-- Digests without collisions: texts that name their session and event, or their whole session.
use session_search.Base.{
  ◌≡◌, refl, sym, ap, String, Bool, true, false, Option, none, some, List, [], ◌∷◌,
}
use session_search.Base.Framed.{framed, framed_apart, empty_apart}
use session_search.Records.{Event, SessionRevision}
use session_search.Catalog.Evidence.{IsInjective}

abbrev event_text : Event → String → String
event_text e rest =
    framed e.event_id
      (framed e.role (framed e.text (framed e.timestamp (framed e.origin (framed e.kind rest)))))

event_text_apart :
    (x y : Event) (a b : String) → event_text x a ≡ event_text y b → (x ≡ y) × (a ≡ b)
event_text_apart x y a b h =
    let one : (x.event_id ≡ y.event_id) × _ = framed_apart x.event_id y.event_id _ _ h in
    let two : (x.role ≡ y.role) × _ = framed_apart x.role y.role _ _ one.1 in
    let three : (x.text ≡ y.text) × _ = framed_apart x.text y.text _ _ two.1 in
    let four : (x.timestamp ≡ y.timestamp) × _ = framed_apart x.timestamp y.timestamp _ _ three.1 in
    let five : (x.origin ≡ y.origin) × _ = framed_apart x.origin y.origin _ _ four.1 in
    let six : (x.kind ≡ y.kind) × (a ≡ b) = framed_apart x.kind y.kind a b five.1 in
    (
      λ i. record {
        event_id = one.0 i;
        role = two.0 i;
        text = three.0 i;
        timestamp = four.0 i;
        origin = five.0 i;
        kind = six.0 i;
      },
      six.1,
    )

unfoldable pub plain_event_digest : String → Event → String
plain_event_digest session e = framed session (event_text e "")

pub plain_event_digest-IsInjective : IsInjective plain_event_digest
unfolding plain_event_digest
plain_event_digest-IsInjective = record {
  same = λ s t a b h.
      let named : (s ≡ t) × _ = framed_apart s t (event_text a "") (event_text b "") h in
      (named.0, (event_text_apart a b "" "" named.1).0);
}

abbrev flag : Bool → String
flag false = ""
flag true = "x"

unfoldable pub events_text : List Event → String → String
events_text [] rest = framed (flag false) rest
events_text (e ∷ es) rest = framed (flag true) (event_text e (events_text es rest))

flag_apart : (x y : Bool) → flag x ≡ flag y → x ≡ y
flag_apart true true h = refl
flag_apart true false h = absurd (empty_apart (sym h))
flag_apart false true h = absurd (empty_apart h)
flag_apart false false h = refl

events_apart :
    (xs ys : List Event) (a b : String) → events_text xs a ≡ events_text ys b → (xs ≡ ys) × (a ≡ b)
unfolding events_text
events_apart [] [] a b h = (refl, (framed_apart "" "" a b h).1)
events_apart [] (y ∷ ys) a b h = absurd (empty_apart (framed_apart "" "x" _ _ h).0)
events_apart (x ∷ xs) [] a b h = absurd (empty_apart (sym (framed_apart "x" "" _ _ h).0))
events_apart (x ∷ xs) (y ∷ ys) a b h =
    let one : (x ≡ y) × (events_text xs a ≡ events_text ys b) =
      event_text_apart x y _ _ (framed_apart "x" "x" _ _ h).1 in
    let others : (xs ≡ ys) × (a ≡ b) = events_apart xs ys a b one.1 in
    (λ i. one.0 i ∷ others.0 i, others.1)

unfoldable pub parent_text : Option String → String
parent_text none = framed "" ""
parent_text (some p) = framed "x" p

parent_apart : (x y : Option String) → parent_text x ≡ parent_text y → x ≡ y
unfolding parent_text
parent_apart none none h = refl
parent_apart none (some y) h = absurd (empty_apart (framed_apart "" "x" _ _ h).0)
parent_apart (some x) none h = absurd (empty_apart (sym (framed_apart "x" "" _ _ h).0))
parent_apart (some x) (some y) h = ap some (framed_apart "x" "x" x y h).1

unfoldable pub plain_session_digest : SessionRevision → String
plain_session_digest s = framed s.session_id (
    events_text s.events (
      framed s.source (
        framed s.project (
          framed s.title (
            framed s.parser_version
              (framed (flag s.is_subagent) (parent_text s.parent_session_id)))))))

pub plain_session_digest_apart :
    (x y : SessionRevision) → plain_session_digest x ≡ plain_session_digest y → x ≡ y
unfolding plain_session_digest
plain_session_digest_apart x y h =
    let one : (x.session_id ≡ y.session_id) × _ = framed_apart x.session_id y.session_id _ _ h in
    let two : (x.events ≡ y.events) × _ = events_apart x.events y.events _ _ one.1 in
    let three : (x.source ≡ y.source) × _ = framed_apart x.source y.source _ _ two.1 in
    let four : (x.project ≡ y.project) × _ = framed_apart x.project y.project _ _ three.1 in
    let five : (x.title ≡ y.title) × _ = framed_apart x.title y.title _ _ four.1 in
    let six : (x.parser_version ≡ y.parser_version) × _ =
      framed_apart x.parser_version y.parser_version _ _ five.1 in
    let seven : (flag x.is_subagent ≡ flag y.is_subagent) × _ =
      framed_apart (flag x.is_subagent) (flag y.is_subagent) _ _ six.1 in
    let sub : x.is_subagent ≡ y.is_subagent = flag_apart x.is_subagent y.is_subagent seven.0 in
    let parent : x.parent_session_id ≡ y.parent_session_id =
      parent_apart x.parent_session_id y.parent_session_id seven.1 in
    λ i. record {
      session_id = one.0 i;
      events = two.0 i;
      source = three.0 i;
      project = four.0 i;
      title = five.0 i;
      parent_session_id = parent i;
      is_subagent = sub i;
      parser_version = six.0 i;
    }
