-- ===== src/Owners/Cached.antt =====
-- What is kept does not change an answer.
use tar.Base.{
  ℕ, ◌≡◌, refl, sym, ◌∙◌, ap, subst, arith, not, ◌&&◌, Option, none, some, List, [], ◌∷◌, map, ◌⊎◌,
  inl, inr, Bool-cases, ◌==◌, if◌then◌else◌,
}
use tar.Base.Text.{Bytes, streq, streq_iff}
use tar.Owners.{
  Database, Cache, empty_cache, id_found, cached_name_or, id_to_name, is_kept, is_kept_first,
  name_found, name_to_id, Call, ask_name, ask_id, Reply, reply_name, reply_id, calls,
}

-- Each id has one name, and each name one id.
pub record IsConsistent (d : Database) : Type 0 where
  pub id_known : (id : ℕ) (name : Bytes) → d.by_id id ≡ some name → d.by_name name ≡ some (id, name)
  pub name_known :
      (id : ℕ) (name kept : Bytes)
      → d.by_name name ≡ some (id, kept)
      → (kept ≡ name) × (d.by_id id ≡ some name)

-- The answers without a cache.
abbrev pub or_empty : Option Bytes → Bytes
or_empty none = []
or_empty (some name) = name

abbrev pub id_of : Option (ℕ × Bytes) → Option ℕ
id_of none = none
id_of (some (id, name)) = some id

abbrev pub direct : Database → Call → Reply
direct d (ask_name id) = reply_name (or_empty (d.by_id id))
direct d (ask_id name) = reply_id (id_of (d.by_name name))

abbrev NameKept : Database → ℕ → Option Bytes → Type 0
NameKept d id none = Unit {0}
NameKept d id (some name) = (d.by_id id ≡ some name) × (d.by_name name ≡ some (id, name))

abbrev NoName : Database → Option Bytes → Type 0
NoName d none = Unit {0}
NoName d (some name) = d.by_name name ≡ none

-- What is kept is true.
record IsTrue (d : Database) (c : Cache) : Type 0 where
  name_kept : NameKept d c.cached_id c.cached_name
  no_name : NoName d c.cached_no_such_name
  no_id : (c.cached_no_such_id ≡ 0) ⊎ (d.by_id c.cached_no_such_id ≡ none)

record Answers {A : Type 0} (d : Database) (answer : A) (r : A × Cache) : Type 0 where
  same : r.0 ≡ answer
  kept : IsTrue d r.1

module _ (d : Database) (consistent : IsConsistent d) where
  id_found-Answers :
      (id : ℕ) (c : Cache) (found : Option Bytes)
      → IsTrue d c
      → d.by_id id ≡ found
      → Answers d (or_empty (d.by_id id)) (id_found id c found)
  id_found-Answers id c none t e = record {
    same = ap or_empty (sym e);
    kept = record { name_kept = t.name_kept; no_name = t.no_name; no_id = inr e };
  }
  id_found-Answers id c (some name) t e = record {
    same = ap or_empty (sym e);
    kept = record {
      name_kept = (e, consistent.id_known id name e);
      no_name = t.no_name;
      no_id = t.no_id;
    };
  }

  cached-Answers :
      (id : ℕ) (c : Cache) (kept : Option Bytes)
      → c.cached_name ≡ kept
      → IsTrue d c
      → Answers d
          (or_empty (d.by_id id))
          (cached_name_or kept (id == c.cached_id) (λ name. (name, c)) (id_found id c (d.by_id id)))
  cached-Answers id c none e t = id_found-Answers id c (d.by_id id) t refl
  cached-Answers id c (some name) e t = elim (Bool-cases (id == c.cached_id)) [
    | inl hit ↦
        let there = subst (NameKept d c.cached_id) e t.name_kept in
        let same_id : id ≡ c.cached_id = ground arith in
        rw hit record { same = ap or_empty (sym (ap d.by_id same_id ∙ there.0)); kept = t }
    | inr miss ↦ rw miss (id_found-Answers id c (d.by_id id) t refl)
  ]

  id_to_name-Answers :
      (id : ℕ) (c : Cache) → IsTrue d c → Answers d (or_empty (d.by_id id)) (id_to_name d id c)
  unfolding id_to_name
  id_to_name-Answers id c t = elim (Bool-cases (not (id == 0) && id == c.cached_no_such_id)) [
    | inl known ↦
        let same_id : c.cached_no_such_id ≡ id = ground arith in
        let no_such : d.by_id id ≡ none = elim t.no_id [
          | inl zero_id ↦ absurd (ground arith)
          | inr missing ↦ ap d.by_id (sym same_id) ∙ missing
        ] in
        rw known record { same = ap or_empty (sym no_such); kept = t }
    | inr unknown ↦ rw unknown (cached-Answers id c c.cached_name refl t)
  ]

  name_found-Answers :
      (name : Bytes) (c : Cache) (found : Option (ℕ × Bytes))
      → IsTrue d c
      → d.by_name name ≡ found
      → Answers d (id_of (d.by_name name)) (name_found name c found)
  name_found-Answers name c none t e = record {
    same = ap id_of (sym e);
    kept = record { name_kept = t.name_kept; no_name = e; no_id = t.no_id };
  }
  name_found-Answers name c (some (id, kept)) t e =
      let known = consistent.name_known id name kept e in
      record {
        same = ap id_of (sym e);
        kept = record {
          name_kept =
              subst (λ (s : Bytes). (d.by_id id ≡ some s) × (d.by_name s ≡ some (id, s)))
                (sym known.0) (known.1, e ∙ ap (λ (s : Bytes). some (id, s)) known.0);
          no_name = t.no_name;
          no_id = t.no_id;
        };
      }

  unless_known-Answers :
      (name : Bytes) (c : Cache) (kept : Option Bytes)
      → c.cached_name ≡ kept
      → IsTrue d c
      → Answers d (id_of (d.by_name name)) (
          if is_kept_first name kept
          then (some c.cached_id, c)
          else name_found name c (d.by_name name))
  unless_known-Answers name c none e t = name_found-Answers name c (d.by_name name) t refl
  unless_known-Answers name c (some kept) e t = elim (Bool-cases (is_kept_first name (some kept))) [
    | inl hit ↦
        let there = subst (NameKept d c.cached_id) e t.name_kept in
        let same_name : name ≡ kept = (streq_iff name kept).0 (ground arith) in
        rw hit record { same = ap id_of (sym (ap d.by_name same_name ∙ there.1)); kept = t }
    | inr miss ↦ rw miss (name_found-Answers name c (d.by_name name) t refl)
  ]

  name_to_id-Answers :
      (name : Bytes) (c : Cache)
      → IsTrue d c
      → Answers d (id_of (d.by_name name)) (name_to_id d name c)
  unfolding name_to_id
  name_to_id-Answers name c t = go c.cached_no_such_name refl
    where
      go :
          (no_such : Option Bytes)
          → c.cached_no_such_name ≡ no_such
          → Answers d (id_of (d.by_name name)) (
              if is_kept name no_such
              then (none, c)
              else if is_kept_first name c.cached_name
              then (some c.cached_id, c)
              else name_found name c (d.by_name name))
      go none e = unless_known-Answers name c c.cached_name refl t
      go (some kept) e = elim (Bool-cases (streq name kept)) [
        | inl hit ↦
            let same_name : name ≡ kept = (streq_iff name kept).0 hit in
            rw hit record {
              same = ap id_of (sym (ap d.by_name same_name ∙ subst (NoName d) e t.no_name));
              kept = t;
            }
        | inr miss ↦ rw miss (unless_known-Answers name c c.cached_name refl t)
      ]

  calls-direct_from : (qs : List Call) (c : Cache) → IsTrue d c → calls d qs c ≡ map (direct d) qs
  unfolding calls
  calls-direct_from [] c t = refl
  calls-direct_from (ask_name id ∷ qs) c t =
      let a = id_to_name-Answers id c t in
      ap (λ (name : Bytes). reply_name name ∷ calls d qs (id_to_name d id c).1) a.same
      ∙ ap (λ (l : List Reply). reply_name (or_empty (d.by_id id)) ∷ l)
          (calls-direct_from qs _ a.kept)
  calls-direct_from (ask_id name ∷ qs) c t =
      let a = name_to_id-Answers name c t in
      ap (λ (id : Option ℕ). reply_id id ∷ calls d qs (name_to_id d name c).1) a.same
      ∙ ap (λ (l : List Reply). reply_id (id_of (d.by_name name)) ∷ l)
          (calls-direct_from qs _ a.kept)

-- Any calls in any order get the answers that the database gives without a cache, an empty name where
-- it has none, if each id of the database has one name and each name one id.
pub calls-direct :
    (d : Database) (qs : List Call) → IsConsistent d → calls d qs empty_cache ≡ map (direct d) qs
calls-direct d qs consistent =
    calls-direct_from d consistent qs empty_cache
      record { name_kept = tt; no_name = tt; no_id = inl refl }
