-- ===== src/Actions/Gate/Authorized.antt =====
-- core/C_action/execution_gate.py and core/C_action/plan_from_receipt.py: what a gate that lets pass has
-- found.

use proto_v2_engine.Base.{
  String, Bool, true, not, ◌≡◌, refl, sym, ap, ◌∙◌, Option, none, some, ok, raise_if-false,
  not-false, >>=-elim, truthy, eq-true,
}
use proto_v2_engine.Json.{Json, Fields, null, str, obj, get_json, is_text, is_truthy}
use proto_v2_engine.Actions.Authorization.{
  ResponsibilityAcceptance, ExecutionAuthorizationRequest, assertion, responsibility_acceptance,
  acceptance_of, accept_keywords, execution_scope, execution_limit, execution_timebox, assert,
  assert_some, is_false, is_accepted, assert_responsibility_accepted,
  assert_execution_request_valid,
}
use proto_v2_engine.Actions.Gate.{
  Files, load_json, content_of, require_dict, rebuild, text_or_empty,
}

assert-true : (b : Bool) (message : String) {u : Unit} → assert b message ≡ ok u → b ≡ true
assert-true b message h = not-false b (raise_if-false (not b) (assertion message) h)

pub require_dict-ok :
    (v : Json) (name : String) {fs : Fields} → require_dict v name ≡ ok fs → v ≡ obj fs
unfolding require_dict
require_dict-ok (obj fs) name h = cc
require_dict-ok null name h = cc
require_dict-ok _ name h = cc

is_text-eq : (v : Json) (s : String) → is_text v s ≡ true → v ≡ str s
is_text-eq (str t) s h = ap str (eq-true t s h)
is_text-eq null s h = cc
is_text-eq _ s h = cc

accepted_as :
    (raw : Fields) {r : ResponsibilityAcceptance}
    → responsibility_acceptance raw ≡ ok r
    → r ≡ acceptance_of raw
accepted_as raw h = >>=-elim (accept_keywords _ _ raw) _ h (λ _ _ e. cc e)

content_of-ok : (c : Option (Option Json)) {v : Json} → content_of c ≡ ok v → c ≡ some (some v)
content_of-ok none h = cc
content_of-ok (some none) h = cc
content_of-ok (some (some w)) h = cc

pub loads :
    (files : Files) (path : Json) {v : Json}
    → load_json files path ≡ ok v
    → (p : String) × (path ≡ str p) × (files p ≡ some (some v))
unfolding load_json
loads files (str p) h = (p, refl, content_of-ok (files p) h)
loads files null h = cc
loads files _ h = cc

assert_some-ok :
    {A : Type 0} (o : Option A) (message : String) {a : A}
    → assert_some o message ≡ ok a
    → o ≡ some a
assert_some-ok none message h = cc
assert_some-ok (some b) message h = cc

-- What the assertions on a request leave.
pub record IsValid (req : ExecutionAuthorizationRequest) : Type 0 where
  pub acceptance : ResponsibilityAcceptance
  pub is_given : req.responsibility ≡ some acceptance
  pub acts_on_nothing : is_false req.auto_action ≡ true
  pub accepted : is_text acceptance.decision "ACCEPT" ≡ true
  pub has_actor : is_truthy acceptance.actor_id ≡ true
  pub named : truthy req.judgment_ref ≡ true
  pub refers : is_text acceptance.judgment_ref req.judgment_ref ≡ true

pub assert-IsValid :
    (req : ExecutionAuthorizationRequest) → assert_execution_request_valid req ≡ ok tt → IsValid req
unfolding assert_execution_request_valid assert_responsibility_accepted is_accepted
assert-IsValid req h =
    >>=-elim (assert (is_false req.auto_action) "auto_action MUST remain false") _ h (λ _ auto h1.
      >>=-elim (assert_some req.responsibility "responsibility required") _ h1 (λ r given h2.
        >>=-elim (assert_responsibility_accepted r) _ h2 (λ _ accepted h3.
          >>=-elim (assert_some req.scope "scope required") _ h3 (λ _ _ h4.
            >>=-elim (assert_some req.limit "limit required") _ h4 (λ _ _ h5.
              >>=-elim (assert_some req.timebox "timebox required") _ h5 (λ _ _ h6.
                >>=-elim (assert (truthy req.judgment_ref) "judgment_ref required") _ h6
                  (λ _ named h7.
                    >>=-elim (assert (is_accepted r) "Responsibility must be explicitly ACCEPTED") _
                      accepted
                      (λ _ yes_ a1.
                        >>=-elim (assert (is_truthy r.actor_id) "actor_id required") _ a1
                          (λ _ actor a2. record {
                            acceptance = r;
                            is_given = assert_some-ok _ _ given;
                            acts_on_nothing = assert-true _ _ auto;
                            accepted = assert-true _ _ yes_;
                            has_actor = assert-true _ _ actor;
                            named = assert-true _ _ named;
                            refers = assert-true _ _ h7;
                          })))))))))

module _ (to_str : Json → String) where
  -- The request that `raw` describes is a person's acceptance of a named judgment, within a scope, a
  -- limit and a time box, and acts on nothing by itself.
  pub record IsAuthorization (auto_action : Json) (raw : Fields) : Type 0 where
    pub responsibility : Fields
    pub scope : Fields
    pub limit : Fields
    pub timebox : Fields
    pub has_responsibility : get_json raw "responsibility" ≡ obj responsibility
    pub has_scope : get_json raw "scope" ≡ obj scope
    pub has_limit : get_json raw "limit" ≡ obj limit
    pub has_timebox : get_json raw "timebox" ≡ obj timebox
    pub accepted : get_json responsibility "decision" ≡ str "ACCEPT"
    pub has_actor : is_truthy (get_json responsibility "actor_id") ≡ true
    pub named : truthy (text_or_empty to_str (get_json raw "judgment_ref")) ≡ true
    pub refers :
        get_json responsibility "judgment_ref"
        ≡ str (text_or_empty to_str (get_json raw "judgment_ref"))
    pub acts_on_nothing : is_false auto_action ≡ true

  -- What a request was rebuilt from.
  pub record IsRebuilt (auto_action : Json) (raw : Fields) (req : ExecutionAuthorizationRequest)
      : Type 0 where
    pub responsibility : Fields
    pub scope : Fields
    pub limit : Fields
    pub timebox : Fields
    pub has_responsibility : get_json raw "responsibility" ≡ obj responsibility
    pub has_scope : get_json raw "scope" ≡ obj scope
    pub has_limit : get_json raw "limit" ≡ obj limit
    pub has_timebox : get_json raw "timebox" ≡ obj timebox
    pub auto : req.auto_action ≡ auto_action
    pub given : req.responsibility ≡ some (acceptance_of responsibility)
    pub reference : req.judgment_ref ≡ text_or_empty to_str (get_json raw "judgment_ref")

  pub rebuild-IsRebuilt :
      (auto_action : Json) (raw : Fields) (req : ExecutionAuthorizationRequest)
      → rebuild to_str auto_action raw ≡ ok req
      → IsRebuilt auto_action raw req
  unfolding rebuild
  rebuild-IsRebuilt auto_action raw req h =
      >>=-elim (require_dict (get_json raw "responsibility") _) _ h (λ rs e1 h1.
        >>=-elim (responsibility_acceptance rs) _ h1 (λ r e2 h2.
          >>=-elim (require_dict (get_json raw "scope") _) _ h2 (λ ss e3 h3.
            >>=-elim (execution_scope ss) _ h3 (λ _ _ h4.
              >>=-elim (require_dict (get_json raw "limit") _) _ h4 (λ ls e5 h5.
                >>=-elim (execution_limit ls) _ h5 (λ _ _ h6.
                  >>=-elim (require_dict (get_json raw "timebox") _) _ h6 (λ ts e7 h7.
                    >>=-elim (execution_timebox ts) _ h7 (λ _ _ h8. record {
                      responsibility = rs;
                      scope = ss;
                      limit = ls;
                      timebox = ts;
                      has_responsibility = require_dict-ok _ _ e1;
                      has_scope = require_dict-ok _ _ e3;
                      has_limit = require_dict-ok _ _ e5;
                      has_timebox = require_dict-ok _ _ e7;
                      auto = cc h8;
                      given = cc (accepted_as rs e2);
                      reference = cc h8;
                    }))))))))

  pub authorization :
      (auto_action : Json) (raw : Fields) (req : ExecutionAuthorizationRequest)
      → IsRebuilt auto_action raw req
      → IsValid req
      → IsAuthorization auto_action raw
  authorization auto_action raw req b v =
      let same : v.acceptance ≡ acceptance_of b.responsibility = cc (sym v.is_given ∙ b.given) in
      record {
        responsibility = b.responsibility;
        scope = b.scope;
        limit = b.limit;
        timebox = b.timebox;
        has_responsibility = b.has_responsibility;
        has_scope = b.has_scope;
        has_limit = b.has_limit;
        has_timebox = b.has_timebox;
        accepted = is_text-eq _ _ (rw same at v.accepted);
        has_actor = rw same at v.has_actor;
        named = rw b.reference at v.named;
        refers = rw (← b.reference) (is_text-eq _ _ (rw same at v.refers));
        acts_on_nothing = rw b.auto at v.acts_on_nothing;
      }
