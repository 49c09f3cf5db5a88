-- ===== src/Feature/Listing.antt =====
-- What the store of flags lists (pkg/feature/feature.go).
use gkit_go.Prelude.{
  ℕ, zero, suc, ◌≡◌, refl, sym, ap, subst, ◌∙◌, none, List, [], ◌∷◌, ◌++◌, arith, Assoc, map_get,
  All, if◌then◌else◌, append_assoc, append-nil,
}
use gkit_go.Bytes.{Text, text_discrete}
use gkit_go.RedisCache.{Reply, ok, failed, Redis, Codec}
use gkit_go.Feature.Storage.{Stored, flags_of, list_one, list_page, list_from, list_all}
use gkit_go.Feature.Entries.{prefix, held, IsReadOnly, is_named, scanned, Shows, list_one-Shows}

module _ {S J E : Type 0} (redis : Redis S J E) (codec : Codec Stored J) (namespace : Text) where
  module _ (server : IsReadOnly redis codec namespace) where
    list_page-Shows :
        (s : S) (keys seen : List Text) (flags : Assoc Text Stored)
        → All (λ k. (name : Text) × (k ≡ (prefix redis codec namespace) ++ name)) keys
        → Shows redis codec namespace s seen flags
        → Shows redis codec namespace s
            (seen ++ keys)
            (list_page redis codec namespace keys flags s).0
          × ((list_page redis codec namespace keys flags s).1 ≡ s)
    unfolding list_page
    list_page-Shows s [] seen flags p h =
        (subst (λ ks. Shows redis codec namespace s ks flags) (sym (append-nil seen)) h, refl)
    list_page-Shows s (k ∷ keys) seen flags p h =
        let (n, e) = p.0 in
        let flags' = list_one redis codec namespace k (redis.get k s).0 flags in
        let h' : Shows redis codec namespace s (seen ++ k ∷ []) flags' =
          subst
            (λ j.
              Shows redis codec namespace s (seen ++ j ∷ [])
                (list_one redis codec namespace j (redis.get j s).0 flags))
            (sym e) (list_one-Shows redis codec namespace s seen n flags h) in
        let rest = list_page-Shows s keys (seen ++ k ∷ []) flags' p.1 h' in
        subst
          (λ t.
            Shows redis codec namespace s (seen ++ k ∷ keys)
              (list_page redis codec namespace keys flags' t).0
            × ((list_page redis codec namespace keys flags' t).1 ≡ s))
          (sym (server.get_keeps k s))
          (
            subst
                (λ ks.
                  Shows redis codec namespace s ks
                    (list_page redis codec namespace keys flags' s).0)
                (append_assoc seen (k ∷ []) keys) rest.0,
            rest.1,
          )

    -- The scan comes to its end, without an error, within so many pages.
    abbrev pub EndsWithin : ℕ → ℕ → S → Type 0
    EndsWithin zero cursor s = ⊥
    EndsWithin (suc fuel) cursor s = elim (redis.scan cursor (prefix redis codec namespace) s).0 [
      | failed e ↦ ⊥
      | ok (keys, zero) ↦ Unit
      | ok (keys, suc c) ↦ EndsWithin fuel (suc c) s
    ]

    list_from-Shows :
        (fuel cursor : ℕ) (seen : List Text) (flags : Assoc Text Stored) (s : S)
        → EndsWithin fuel cursor s
        → Shows redis codec namespace s seen flags
        → (flags' : Assoc Text Stored) × ((list_from redis codec namespace fuel cursor flags s
              ≡ (flags_of flags', s))
            × Shows redis codec namespace s
                (seen ++ scanned redis codec namespace fuel cursor s)
                flags')
    unfolding list_from
    list_from-Shows zero cursor seen flags s e h = elim e [ ]
    list_from-Shows (suc fuel) cursor seen flags s e h =
        paged (redis.scan cursor (prefix redis codec namespace) s).0 refl
          (λ c seen' flags'' e' h'. list_from-Shows fuel c seen' flags'' s e' h')
      where
        Goal : Type 0
        Goal =
            (flags' : Assoc Text Stored) × ((list_from redis codec namespace (suc fuel) cursor flags
                  s
                ≡ (flags_of flags', s))
              × Shows redis codec namespace s
                  (seen ++ scanned redis codec namespace (suc fuel) cursor s) flags')

        paged :
            (r : Reply (List Text × ℕ) E)
            → (redis.scan cursor (prefix redis codec namespace) s).0 ≡ r
            → ((c : ℕ) (seen' : List Text) (flags'' : Assoc Text Stored)
                → EndsWithin fuel c s
                → Shows redis codec namespace s seen' flags''
                → (flags' : Assoc Text Stored) × ((list_from redis codec namespace fuel c flags'' s
                      ≡ (flags_of flags', s))
                    × Shows redis codec namespace s
                        (seen' ++ scanned redis codec namespace fuel c s)
                        flags'))
            → Goal
        paged (failed x) q rest = absurd (ground (arith, q, e))
        paged (ok (keys, zero)) q rest =
            let (shows, same) =
              list_page-Shows s keys seen flags (server.scan_prefix cursor s keys zero q) h in
            let all : scanned redis codec namespace (suc fuel) cursor s ≡ keys =
              ground (arith, q) in
            (
              (list_page redis codec namespace keys flags s).0,
              (
                ground (arith, q, server.scan_keeps cursor (prefix redis codec namespace) s, same),
                subst
                    (λ ks.
                      Shows redis codec namespace s (seen ++ ks)
                        (list_page redis codec namespace keys flags s).0)
                    (sym all) shows,
              ),
            )
        paged (ok (keys, suc c)) q rest =
            let (shows, same) =
              list_page-Shows s keys seen flags (server.scan_prefix cursor s keys (suc c) q) h in
            let all : scanned redis codec namespace (suc fuel) cursor s
                ≡ keys ++ scanned redis codec namespace fuel (suc c) s =
              ground (arith, q) in
            let (flags', (r, last)) =
              rest (suc c) (seen ++ keys) (list_page redis codec namespace keys flags s).0
                (ground (arith, q, e)) shows in
            (
              flags',
              (
                ground
                    (arith, q, server.scan_keeps cursor (prefix redis codec namespace) s, same, r),
                subst (λ ks. Shows redis codec namespace s ks flags')
                    (append_assoc seen keys (scanned redis codec namespace fuel (suc c) s)
                      ∙ ap (λ ks. seen ++ ks) (sym all))
                    last,
              ),
            )

    -- On a server whose reads change nothing and whose scan finds only keys with the prefix asked
    -- for, when the scan comes to its end without an error within so many pages: ListAll returns,
    -- with the server as it was, a map that has under each name whose key was scanned redis codec namespace just what Get
    -- finds under that name, and nothing under any other name.
    pub list_all-Lists :
        (fuel : ℕ) (s : S)
        → EndsWithin fuel 0 s
        → (flags : Assoc Text Stored) × ((list_all redis codec namespace fuel s
              ≡ (flags_of flags, s))
            × ((name : Text)
                → map_get text_discrete flags name ≡ (
                    if is_named redis codec namespace (scanned redis codec namespace fuel 0 s) name
                    then held redis codec namespace s name
                    else none)))
    unfolding list_all map_get
    list_all-Lists fuel s e = list_from-Shows fuel 0 [] [] s e empty
      where
        empty : Shows redis codec namespace s [] []
        empty name = refl
