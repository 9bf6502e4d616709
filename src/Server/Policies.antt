-- ===== src/Server/Policies.antt =====
-- The handlers of policies: `handlePolicyUpload`, `handlePolicyDelete`, `handlePolicy`, `handlePolicyList`,
-- `handlePolicyListRevisions` and `handlePolicyGetRevision`.
use volplugin.Base.{ℕ, Option, none, some, List, [], ◌∷◌, Text}
use volplugin.Errors.{
  Result, ok, err, panic, Error, Fault, ◌>>=◌, wrap, read_body, unmarshal_policy, publish_policy,
  publish_global, list_policy_revision, get_policy_revision, list_policy, get_policy,
  marshal_policy,
}
use volplugin.Config.Types.{Policy}
use volplugin.Config.Policy
use volplugin.Config.Policy.{PolicyStore, PolicyRequest, delete_policy_named, get_policy_named}
use volplugin.Server.Defs.{http_error, content, panicked, Reply}

-- A handler that writes the content of its result, and one that writes nothing if there is no error.
abbrev pub respond {ℓ} : {A : Type ℓ} → Result A → Reply A
respond (ok a) = content a ∷ []
respond (err e) = http_error e ∷ []
respond panic = panicked ∷ []

abbrev pub acknowledge : Result (Unit {0}) → Reply Text
acknowledge (ok u) = []
acknowledge (err e) = http_error e ∷ []
acknowledge panic = panicked ∷ []

abbrev pub nil_or : Option Error → Result (Unit {0})
nil_or none = ok tt
nil_or (some e) = err e

-- The reading of the body and its decoding.
abbrev pub decoded {ℓ} : {A : Type ℓ} → Result Text → (Text → Result A) → Fault → Result A
decoded read decode f = wrap read_body read >>= λ body. wrap f (decode body)

module _ (from_human_size : Text → Result ℕ) (schema : Policy → Option Error)
    (q : PolicyRequest) where
  abbrev uploaded : Text → PolicyStore → Result Policy → Reply Text × PolicyStore
  uploaded name w (ok p) =
      let (r, w') = Policy.publish_policy from_human_size schema q name p w in
      (acknowledge (wrap publish_policy r), w')
  uploaded name w (err e) = (http_error e ∷ [], w)
  uploaded name w panic = (panicked ∷ [], w)

  -- `handlePolicyUpload`.
  unfoldable pub handle_policy_upload :
      Result Text → (Text → Result Policy) → Text → PolicyStore → Reply Text × PolicyStore
  handle_policy_upload read decode name w = uploaded name w (decoded read decode unmarshal_policy)

  -- `handlePolicyDelete`: its error is named for the global configuration.
  unfoldable pub handle_policy_delete : Text → PolicyStore → Reply Text × PolicyStore
  handle_policy_delete name w =
      let (e, w') = delete_policy_named from_human_size schema q name w in
      (acknowledge (wrap publish_global (nil_or e)), w')

  -- `handlePolicy`.
  unfoldable pub handle_policy : (Policy → Result Text) → Text → PolicyStore → Reply Text
  handle_policy marshal name w = respond (
      wrap get_policy (get_policy_named from_human_size schema q name w) >>= λ p.
      wrap marshal_policy (marshal p))

  -- `handlePolicyGetRevision`.
  unfoldable pub handle_policy_get_revision : (Policy → Text) → Text → ℕ → PolicyStore → Reply Text
  handle_policy_get_revision text name revision w = respond (
      wrap get_policy_revision (Policy.get_policy_revision from_human_size schema q name revision w)
      >>= λ p. ok (text p))

-- `handlePolicyList` and `handlePolicyListRevisions`, with what the store lists.
unfoldable pub handle_policy_list : Result (List Policy) → (List Policy → Result Text) → Reply Text
handle_policy_list listed marshal =
    respond (wrap list_policy listed >>= λ ps. wrap list_policy (marshal ps))

unfoldable pub handle_policy_list_revisions :
    Result (List Text) → (List Text → Result Text) → Reply Text
handle_policy_list_revisions listed marshal =
    respond (wrap list_policy_revision listed >>= λ rs. wrap list_policy_revision (marshal rs))
