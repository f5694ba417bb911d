-- ===== src/Capabilities/Merged.antt =====
-- What ProcessCapabilities gives when it succeeds.
use mathlib.Core.Path.{subst}
use chromedriver.Base.{
  ℕ, suc, String, ◌≡◌, refl, sym, ◌∙◌, true, false, Option, none, some, List, [], ◌∷◌, arith, inl,
  inr, Bool-cases, Option-cases,
}
use chromedriver.Values.{Values, find_dict}
use chromedriver.Result.{bind-done, done-inj, done, ◌>>=◌}
use chromedriver.Status.{Status, is_error}
use chromedriver.Capabilities.{
  Lists, Product, merge_capabilities, match_capabilities, required_capabilities, all_first_match,
  validate, validated, merged_entry, merge_all, first_matching, process_capabilities, processed,
  required_of, entries_of,
}

module _ {V D : Type 0} (api : Values V D) (product : Product) (lists : Lists V D) where
  open api use {find}

  -- The first entry of which a merge matches, with the entries before it
  pub data IsFirst (required : D) : List D → D → D → Type 0 where
    here :
        {d m : D} {ds : List D}
        → merge_capabilities api product lists required d ≡ some m
        → match_capabilities api product lists m ≡ true
        → IsFirst required (d ∷ ds) d m
    there :
        {d m : D} {ds : List D} (e n : D)
        → merge_capabilities api product lists required e ≡ some n
        → match_capabilities api product lists n ≡ false
        → IsFirst required ds d m
        → IsFirst required (e ∷ ds) d m

  module _ (parse : D → Status) (print : ℕ → String) where
    merged_entry-done :
        (required : D) (i : ℕ) (d m : D)
        → merged_entry api product lists parse print required i d ≡ done m
        → merge_capabilities api product lists required d ≡ some m
    merged_entry-done required i d m h =
        ground (arith, h, Option-cases (merge_capabilities api product lists required d))

    first_matching-match :
        (d : D) (ds : List D)
        → match_capabilities api product lists d ≡ true
        → first_matching api product lists parse print (d ∷ ds) ≡ done d
    unfolding first_matching
    first_matching-match d ds h = rw h refl

    first_matching-next :
        (d : D) (ds : List D)
        → match_capabilities api product lists d ≡ false
        → first_matching api product lists parse print (d ∷ ds)
          ≡ first_matching api product lists parse print ds
    unfolding first_matching
    first_matching-next d ds h = rw h refl

    first_matching-merge_all :
        (required : D) (i : ℕ) (ds ms : List D) (m : D)
        → merge_all api product lists parse print required i ds ≡ done ms
        → first_matching api product lists parse print ms ≡ done m
        → (d : D) × IsFirst required ds d m
    unfolding merge_all first_matching
    first_matching-merge_all required i [] ms m h k = absurd (none_matches ms (ground (arith, h)) k)
      where
        none_matches :
            (ms : List D) → ms ≡ [] → first_matching api product lists parse print ms ≡ done m → ⊥
        none_matches [] e f = ground (arith, f)
        none_matches (n ∷ ns) e f = ground (arith, e)
    first_matching-merge_all required i (d ∷ ds) ms m h k =
        let rest = merge_all api product lists parse print required (suc i) ds in
        let a =
          bind-done (merged_entry api product lists parse print required i d)
            (λ (n : D). rest >>= λ ns. done (n ∷ ns)) ms h in
        let b = bind-done rest (λ (ns : List D). done (a.0 ∷ ns)) ms a.2 in
        let merged = merged_entry-done required i d a.0 a.1 in
        let k' : first_matching api product lists parse print (a.0 ∷ b.0) ≡ done m =
          subst (λ (xs : List D). first_matching api product lists parse print xs ≡ done m)
            (sym (done-inj b.2)) k in
        elim (Bool-cases (match_capabilities api product lists a.0)) [
          | inl y ↦ (
            d,
            subst (λ (x : D). IsFirst required (d ∷ ds) d x)
                (done-inj (sym (first_matching-match a.0 b.0 y) ∙ k')) (here merged y),
          )
          | inr n ↦
              let r =
                first_matching-merge_all required (suc i) ds b.0 m b.1
                  (sym (first_matching-next a.0 b.0 n) ∙ k') in
              (r.0, there d a.0 merged n r.1)
        ]

    -- The entries are these dictionaries, and each is well-formed.
    abbrev pub Valid : List V → List D → Type 0
    Valid [] [] = Unit
    Valid (v ∷ vs) (d ∷ ds) = (api.as_dict v ≡ some d) × (is_error (parse d) ≡ false) × Valid vs ds
    Valid _ _ = ⊥

    -- What the value of "alwaysMatch" requires of every entry
    abbrev pub Requires : Option V → D → Type 0
    Requires none required = required ≡ api.empty_dict
    Requires (some v) required =
        (api.as_dict v ≡ some required) × (is_error (parse required) ≡ false)

    -- The entries that the value of "firstMatch" has
    abbrev pub Entries : Option V → List V → Type 0
    Entries none entries = entries ≡ api.of_dict api.empty_dict ∷ []
    Entries (some v) entries = lists.as_list v ≡ some entries

    required_of-Requires :
        (o : Option V) (required : D)
        → required_of api product lists parse print o ≡ done required
        → Requires o required
    required_of-Requires none required h = sym (done-inj h)
    required_of-Requires (some v) required h = ground (arith, h, Option-cases (api.as_dict v))

    entries_of-Entries :
        (o : Option V) (entries : List V)
        → entries_of api product lists parse print o ≡ done entries
        → Entries o entries
    entries_of-Entries none entries h = sym (done-inj h)
    entries_of-Entries (some v) entries h = ground (arith, h, Option-cases (lists.as_list v))

    validated-done :
        (i : ℕ) (v : V) (d : D)
        → validated api product lists parse print i v ≡ done d
        → (api.as_dict v ≡ some d) × (is_error (parse d) ≡ false)
    validated-done i v d h = ground (arith, h, Option-cases (api.as_dict v))

    validate-Valid :
        (i : ℕ) (vs : List V) (ds : List D)
        → validate api product lists parse print i vs ≡ done ds
        → Valid vs ds
    unfolding validate
    validate-Valid i [] ds h = subst (λ (xs : List D). Valid [] xs) (done-inj h) tt
    validate-Valid i (v ∷ vs) ds h =
        let rest = validate api product lists parse print (suc i) vs in
        let a =
          bind-done (validated api product lists parse print i v)
            (λ (d : D). rest >>= λ xs. done (d ∷ xs)) ds h in
        let b = bind-done rest (λ (xs : List D). done (a.0 ∷ xs)) ds a.2 in
        let v' = validated-done i v a.0 a.1 in
        subst (λ (xs : List D). Valid (v ∷ vs) xs) (done-inj b.2)
          (v'.0, v'.1, validate-Valid (suc i) vs b.0 b.1)

    -- If the capabilities of a new session are processed, they are the merge of "alwaysMatch" with
    -- the first entry of "firstMatch" of which the merge matches; every entry is well-formed, and
    -- every entry before that one was merged and did not match.
    pub process_capabilities-IsFirst :
        (params caps : D)
        → process_capabilities api product lists parse print params ≡ done caps
        → (request : D) × (required : D) × (entries : List V) × (ds : List D) × (d : D) × (find_dict
              api params "capabilities"
            ≡ some request)
          × Requires (api.find request "alwaysMatch") required
          × Entries (api.find request "firstMatch") entries
          × Valid entries ds
          × IsFirst required ds d caps
    unfolding process_capabilities required_capabilities all_first_match
    process_capabilities-IsFirst params caps h =
        elim (Option-cases (find_dict api params "capabilities")) [
          | inl n ↦ absurd (ground (arith, n, h))
          | inr (request, e) ↦
              let h' : processed api product lists parse print request ≡ done caps =
                ground (arith, e, h) in
              let a =
                bind-done (required_capabilities api product lists parse print request)
                  (λ (required : D).
                    all_first_match api product lists parse print request >>= λ entries.
                    validate api product lists parse print 0 entries >>= λ ds.
                    merge_all api product lists parse print required 0 ds
                    >>= first_matching api product lists parse print)
                  caps h' in
              let b =
                bind-done (all_first_match api product lists parse print request)
                  (λ (entries : List V). validate api product lists parse print 0 entries >>= λ ds.
                    merge_all api product lists parse print a.0 0 ds
                    >>= first_matching api product lists parse print)
                  caps a.2 in
              let c =
                bind-done (validate api product lists parse print 0 b.0)
                  (λ (ds : List D).
                    merge_all api product lists parse print a.0 0 ds
                    >>= first_matching api product lists parse print)
                  caps b.2 in
              let m =
                bind-done (merge_all api product lists parse print a.0 0 c.0)
                  (first_matching api product lists parse print) caps c.2 in
              let f = first_matching-merge_all a.0 0 c.0 m.0 caps m.1 m.2 in
              (
                request,
                a.0,
                b.0,
                c.0,
                f.0,
                e,
                required_of-Requires (api.find request "alwaysMatch") a.0 a.1,
                entries_of-Entries (api.find request "firstMatch") b.0 b.1,
                validate-Valid 0 b.0 c.0 c.1,
                f.1,
              )
        ]
