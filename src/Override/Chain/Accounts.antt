-- ===== src/Override/Chain/Accounts.antt =====
-- tools/audit/verify_override_chain.py: the request and the approval behind each execution.
use mathlib.Core.List.{Memᴰ}
use proto_v2_engine.Base.{
  and-left, not-true, or-left, eq-true, String, Bool, true, false, not, ◌||◌, ◌≡◌, refl, sym, ap,
  ◌∙◌, ◌⊎◌, inl, inr, Option, none, some, List, [], ◌∷◌, ok, All, >>=-elim, Bool-cases, ◌==◌,
  if◌then◌else◌,
}
use proto_v2_engine.Json.{Json, str}
use proto_v2_engine.Override.Schema.{Checked, Times}
use proto_v2_engine.Override.Chain.{
  member, text_of, type_is, subject, id_of, expires_at, verify, find_event, require_event,
  is_request, is_approval, time_or_fail, parsed, verify_answer, verify_execution, verify_roles,
  verify_all_roles,
}

abbrev request_of : Json → String
request_of ev = text_of (member ev "ref_request_event_id")

abbrev approval_of : Json → String
approval_of ev = text_of (member ev "ref_approval_event_id")

-- An answer to a request of the file by somebody else than who asked.
pub record IsAnswered (events : List Json) (ev : Json) : Type 0 where
  pub req : Json
  pub is_here : Memᴰ req events
  pub is_named : id_of req ≡ request_of ev
  pub is_request : type_is req "OVERRIDE_REQUESTED" ≡ true
  pub separate : (subject req == subject ev) ≡ false

-- An execution under an approval of the same request, by two different subjects, before it expires.
pub record IsLicensed {T : Type 0} (times : Times T) (events : List Json) (ev : Json) : Type 0 where
  pub req : Json
  pub approval : Json
  pub executed_ts : T
  pub expires : T
  pub request_here : Memᴰ req events
  pub request_named : id_of req ≡ request_of ev
  pub is_requested : type_is req "OVERRIDE_REQUESTED" ≡ true
  pub approval_here : Memᴰ approval events
  pub approval_named : id_of approval ≡ approval_of ev
  pub is_approved : is_approval approval ≡ true
  pub same_request : request_of approval ≡ request_of ev
  pub separate : (subject req == subject approval) ≡ false
  pub has_time : times.parse_isoz (text_of (member ev "ts")) ≡ some executed_ts
  pub has_expiry : times.parse_isoz (text_of (expires_at approval)) ≡ some expires
  pub in_time : times.is_before expires executed_ts ≡ false

if-checked :
    (b : Bool) (r : Checked) {u : Unit} → (if b then r else ok tt) ≡ ok u → b ≡ true → r ≡ ok tt
if-checked true r h t = h
if-checked false r h t = cc

pub verify-true : (b : Bool) (msg : String) {u : Unit} → verify b msg ≡ ok u → b ≡ true
verify-true true msg h = refl
verify-true false msg h = cc

find-Memᴰ :
    (evs : List Json) (id : String) {ev : Json}
    → find_event evs id ≡ some ev
    → Memᴰ ev evs × (id_of ev ≡ id)
unfolding find_event
find-Memᴰ [] id h = cc
find-Memᴰ (x ∷ evs) id {ev} h = elim (Bool-cases (id_of x == id)) [
  | inl t ↦
      let same : x ≡ ev = cc (rw t at h) in
      (Memᴰ.head (sym same), rw (← same) (eq-true (id_of x) id t))
  | inr t ↦ let (m, e) = find-Memᴰ evs id (rw t at h) in (Memᴰ.tail m, e)
]

module _ {T : Type 0} (times : Times T) where
  require-event :
      (test : Json → Bool) (msg : String) (o : Option Json) {ev : Json}
      → require_event test msg o ≡ ok ev
      → (o ≡ some ev) × (test ev ≡ true)
  require-event test msg none h = cc
  require-event test msg (some x) {ev} h = elim (Bool-cases (test x)) [
    | inl t ↦ let same : x ≡ ev = cc (rw t at h) in (ap some same, rw (← same) t)
    | inr t ↦ absurd (cc (rw t at h))
  ]

  parsed-eq_ok : (msg : String) (o : Option T) {t : T} → parsed msg o ≡ ok t → o ≡ some t
  parsed-eq_ok msg none h = cc
  parsed-eq_ok msg (some t) h = cc

  time-eq_ok :
      (msg : String) (v : Json) {t : T}
      → time_or_fail times msg v ≡ ok t
      → times.parse_isoz (text_of v) ≡ some t
  time-eq_ok msg (str s) h = parsed-eq_ok msg (times.parse_isoz s) h
  time-eq_ok msg Json.null h = cc
  time-eq_ok msg (Json.obj _) h = cc
  time-eq_ok msg (Json.bool _) h = cc
  time-eq_ok msg (Json.int _) h = cc
  time-eq_ok msg (Json.float _) h = cc
  time-eq_ok msg (Json.decimal _) h = cc
  time-eq_ok msg (Json.arr _) h = cc

  answer-IsAnswered :
      (events : List Json) (ev : Json) {u : Unit}
      → verify_answer times events ev ≡ ok u
      → IsAnswered events ev
  unfolding verify_answer
  answer-IsAnswered events ev h =
      >>=-elim
        (require_event is_request "missing OVERRIDE_REQUESTED" (find_event events (request_of ev)))
        _ h
        (λ req found h1.
          >>=-elim (verify (not (subject req == subject ev)) "role_separation_violation") _ h1
            (λ _ apart _.
              let (here, is_req) = require-event _ _ _ found in
              let (m, named) = find-Memᴰ events (request_of ev) here in
              record {
                req = req;
                is_here = m;
                is_named = named;
                is_request = is_req;
                separate = not-true _ (verify-true _ _ apart);
              }))

  execution-IsLicensed :
      (events : List Json) (ev : Json) {u : Unit}
      → ((x : Json) → Memᴰ x events → type_is x "OVERRIDE_APPROVED" ≡ true → IsAnswered events x)
      → verify_execution times events ev ≡ ok u
      → IsLicensed times events ev
  unfolding verify_execution
  execution-IsLicensed events ev answered h =
      >>=-elim
        (require_event is_request "missing OVERRIDE_REQUESTED" (find_event events (request_of ev)))
        _ h
        (λ req found h1.
          >>=-elim
            (require_event is_approval "missing OVERRIDE_APPROVED"
              (find_event events (approval_of ev)))
            _ h1
            (λ approval found' h2.
              >>=-elim (verify (request_of approval == request_of ev) "approval_request_mismatch") _
                h2
                (λ _ matched h3.
                  >>=-elim (time_or_fail times "expired_override" (member ev "ts")) _ h3
                    (λ executed_ts e_ts h4.
                      >>=-elim (time_or_fail times "expired_override" (expires_at approval)) _ h4
                        (λ expires e_exp h5.
                          let (here, is_appr) = require-event _ _ _ found' in
                          let (m, named) = find-Memᴰ events (approval_of ev) here in
                          let same =
                            eq-true (request_of approval) (request_of ev)
                              (verify-true _ _ matched) in
                          let answer = answered approval m (and-left _ _ is_appr) in
                          record {
                            req = answer.req;
                            approval = approval;
                            executed_ts = executed_ts;
                            expires = expires;
                            request_here = answer.is_here;
                            request_named = answer.is_named ∙ same;
                            is_requested = answer.is_request;
                            approval_here = m;
                            approval_named = named;
                            is_approved = is_appr;
                            same_request = same;
                            separate = answer.separate;
                            has_time = time-eq_ok "expired_override" (member ev "ts") e_ts;
                            has_expiry = time-eq_ok "expired_override" (expires_at approval) e_exp;
                            in_time = not-true _ (verify-true _ _ h5);
                          })))))

  -- Each event of the second loop was checked.
  all_roles-Memᴰ :
      (events evs : List Json) (x : Json)
      → verify_all_roles times events evs ≡ ok tt
      → Memᴰ x evs
      → verify_roles times events x ≡ ok tt
  unfolding verify_all_roles
  all_roles-Memᴰ events [] x h m = elim m [ ]
  all_roles-Memᴰ events (ev ∷ evs) x h m =
      >>=-elim (verify_roles times events ev) _ h (λ _ first rest. elim m [
        | Memᴰ.head e ↦ rw e first
        | Memᴰ.tail m' ↦ all_roles-Memᴰ events evs x rest m'
      ])

  abbrev answer_branch : List Json → Json → Checked
  answer_branch events x =
      if type_is x "OVERRIDE_APPROVED" || type_is x "OVERRIDE_REJECTED"
      then verify_answer times events x
      else ok tt

  -- The two branches of the second loop's body.
  roles-cases :
      (events : List Json) (x : Json)
      → verify_roles times events x ≡ ok tt
      → (type_is x "OVERRIDE_APPROVED" ≡ true → verify_answer times events x ≡ ok tt)
        × (type_is x "OVERRIDE_EXECUTED" ≡ true → verify_execution times events x ≡ ok tt)
  unfolding verify_roles
  roles-cases events x h = >>=-elim (answer_branch events x) _ h (λ _ first rest. (
    λ t. if-checked _ (verify_answer times events x) first (or-left _ _ t),
    λ t. if-checked _ (verify_execution times events x) rest t,
  ))

  -- The account that a file gives of an execution; other events need none.
  abbrev pub IsAccounted : List Json → Json → Type 0
  IsAccounted events ev = (type_is ev "OVERRIDE_EXECUTED" ≡ false) ⊎ IsLicensed times events ev

  pub all-IsAccounted :
      (events evs : List Json)
      → verify_all_roles times events events ≡ ok tt
      → ((x : Json) → Memᴰ x evs → Memᴰ x events)
      → All (IsAccounted events) evs
  all-IsAccounted events [] h inside = tt
  all-IsAccounted events (ev ∷ evs) h inside = (
    elim (Bool-cases (type_is ev "OVERRIDE_EXECUTED")) [
      | inr other ↦ inl other
      | inl t ↦ inr (
          execution-IsLicensed events ev
            (λ x m a.
              answer-IsAnswered events x
                ((roles-cases events x (all_roles-Memᴰ events events x h m)).0 a))
            ((roles-cases events ev
                (all_roles-Memᴰ events events ev h (inside ev (Memᴰ.head refl)))).1
              t))
    ],
    all-IsAccounted events evs h (λ x m. inside x (Memᴰ.tail m)),
  )
