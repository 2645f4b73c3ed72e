-- ===== src/Owners/Runs.antt =====
-- Owners: a host with one user.
use tar.Base.{
  ℕ, ◌≡◌, refl, sym, ◌∙◌, ap, subst, arith, Bool, true, false, none, some, List, [], ◌∷◌, map, ◌==◌,
  if◌then◌else◌,
}
use tar.Base.Text.{Bytes, codes, streq, streq_iff}
use tar.Owners.{Database, empty_cache, Call, ask_name, ask_id, calls}
use tar.Owners.Cached.{IsConsistent, direct, calls-direct}

abbrev root : Bytes
root = codes "root"

abbrev one_user : Database
one_user = record {
  by_id = λ id. if id == 0 then some root else none;
  by_name = λ name. if streq name root then some (0, root) else none;
}

abbrev user : ℕ → Bytes → ℕ × Bytes
user id name = (id, name)

root_known : one_user.by_name root ≡ some (user 0 root)
unfolding streq
root_known = refl

one_user-IsConsistent : IsConsistent one_user
one_user-IsConsistent = record {
  id_known = λ id name e. known id name (id == 0) refl e;
  name_known = λ id name kept e. named id name kept (streq name root) refl e;
}
  where
    known :
        (id : ℕ) (name : Bytes) (b : Bool)
        → (id == 0) ≡ b
        → (if b then some root else none) ≡ some name
        → one_user.by_name name ≡ some (id, name)
    known id name false h e = absurd (cc)
    known id name true h e =
        let same : root ≡ name = cc in
        subst (λ (s : Bytes). one_user.by_name s ≡ some (id, s)) same
          (root_known ∙ ap (λ (k : ℕ). some (user k root)) {x = 0} {y = id} (ground arith))

    named :
        (id : ℕ) (name kept : Bytes) (b : Bool)
        → streq name root ≡ b
        → (if b then some (user 0 root) else none) ≡ some (user id kept)
        → (kept ≡ name) × (one_user.by_id id ≡ some name)
    named id name kept false h e = absurd (cc)
    named id name kept true h e =
        let same : name ≡ root = (streq_iff name root).0 h in
        let same_kept : root ≡ kept = cc in
        let same_id : 0 ≡ id = cc in
        (
          sym same_kept ∙ sym same,
          subst (λ (k : ℕ). one_user.by_id k ≡ some name) same_id (ap some (sym same)),
        )

-- A name, a name that is not there twice, and ids.
abbrev questions : List Call
questions =
    ask_id root
    ∷ ask_name 0
    ∷ ask_id (codes "guest")
    ∷ ask_id (codes "guest")
    ∷ ask_name 7
    ∷ ask_name 7
    ∷ []

calls-direct_example : calls one_user questions empty_cache ≡ map (direct one_user) questions
calls-direct_example = calls-direct one_user questions one_user-IsConsistent
