-- ===== src/GithubApp/Client/Cache.antt =====
-- `GetInstallationToken` of internal/identity/githubapp/client.go: where a token comes from.
use foreman.Prelude.{
  ℕ, ◌+◌, ◌<◌, String, ◌≡◌, refl, subst, ◌∙◌, ap, ◌⊎◌, Bool-cases, some, Option-cases, List, [],
  ◌∷◌, Result, Result-cases, ok, err, arith, inl, inr, if◌then◌else◌, ◌==◌, ltb,
}
use foreman.GithubApp.Client.{
  TokenCacheEntry, Client, Github, five_minutes, find_token, keep_token, cached, load_private_key,
  generate_app_jwt, get_installation_token, fetched, granted, remembered, with_key,
}

find_token-keep_token :
    (id other : ℕ) (entry : TokenCacheEntry) (cache : List (ℕ × TokenCacheEntry))
    → find_token other (keep_token id entry cache)
      ≡ (if id == other then some entry else find_token other cache)
unfolding find_token keep_token
find_token-keep_token id other entry [] = refl
find_token-keep_token id other entry ((first, old) ∷ cache) =
    ground (arith, find_token-keep_token id other entry cache)

module _ {K R : Type 0} (gh : Github K R) where
  -- The request that a token was got by, and what it left of the cache.
  pub record IsGranted (id : ℕ) (before : List (ℕ × TokenCacheEntry)) (r r' : R)
      (entry : TokenCacheEntry) (after : List (ℕ × TokenCacheEntry)) : Type 0 where
    pub jwt : String
    pub body : String
    pub posted : gh.post jwt id r ≡ (ok (201, body), r')
    pub parsed : gh.parse_token body ≡ ok entry
    pub stored :
        (other : ℕ)
        → find_token other after ≡ (if id == other then some entry else find_token other before)

  -- A token is from the cache, valid for more than five minutes, and then nothing has changed, or it
  -- is from the server; an error leaves the cache.
  abbrev pub Comes : ℕ → ℕ → Client K × R → Result TokenCacheEntry × (Client K × R) → Type 0
  Comes now id (c, r) (err e, (c', r')) = c'.token_cache ≡ c.token_cache
  Comes now id (c, r) (ok entry, (c', r')) =
      ((find_token id c.token_cache ≡ some entry)
        × (now + five_minutes < entry.expires_at)
        × (c' ≡ c)
        × (r' ≡ r))
      ⊎ IsGranted id c.token_cache r r' entry c'.token_cache

  with_key-token_cache :
      (c : Client K) (key : Result K) → (with_key gh c key).1.token_cache ≡ c.token_cache
  with_key-token_cache c (ok key) = refl
  with_key-token_cache c (err e) = refl

  jwt-token_cache :
      (now : ℕ) (c : Client K) → (generate_app_jwt gh now c).1.token_cache ≡ c.token_cache
  unfolding generate_app_jwt load_private_key
  jwt-token_cache now c = elim (Option-cases c.private_key) [
    | inl e ↦ rw (e, load_private_key) (with_key-token_cache c _)
    | inr (key, e) ↦ rw (e, load_private_key) refl
  ]

  granted-ok :
      (reply : Result (ℕ × String)) (entry : TokenCacheEntry)
      → granted gh reply ≡ ok entry
      → (body : String) × (reply ≡ ok (201, body)) × (gh.parse_token body ≡ ok entry)
  granted-ok (err e) entry h = ground arith
  granted-ok (ok (code, body)) entry h = elim (Bool-cases (code == 201)) [
    | inr e ↦ ground (arith, e)
    | inl e ↦ elim (Result-cases (gh.parse_token body)) [
      | inr (x, p) ↦ ground (arith, e, p)
      | inl (found, p) ↦
          (body, ap (λ n. ok (n, body)) (ground (arith, e)), p ∙ ground (arith, e, p))
    ]
  ]

  remembered-Comes :
      (now id : ℕ) (c c' : Client K) (r : R) (jwt : String) (sent : Result TokenCacheEntry)
      → c'.token_cache ≡ c.token_cache
      → granted gh (gh.post jwt id r).0 ≡ sent
      → Comes now id (c, r) (remembered gh id c' (gh.post jwt id r).1 sent)
  remembered-Comes now id c c' r jwt (err e) same h = same
  remembered-Comes now id c c' r jwt (ok entry) same h =
      let (body, replied, parsed) = granted-ok (gh.post jwt id r).0 entry h in
      inr (record {
        jwt = jwt;
        body = body;
        posted = ap (λ a. (a, (gh.post jwt id r).1)) replied;
        parsed = parsed;
        stored = λ other.
            find_token-keep_token id other entry c'.token_cache
            ∙ ap (λ cache. if id == other then some entry else find_token other cache) same;
      })

  fetched-Comes :
      (now id : ℕ) (c : Client K) (r : R) (made : Result String × Client K)
      → made.1.token_cache ≡ c.token_cache
      → Comes now id (c, r) (fetched gh id r made)
  fetched-Comes now id c r (err e, c') same = same
  fetched-Comes now id c r (ok jwt, c') same =
      remembered-Comes now id c c' r jwt (granted gh (gh.post jwt id r).0) same refl

  cached-some :
      (now id : ℕ) (cache : List (ℕ × TokenCacheEntry)) (entry : TokenCacheEntry)
      → cached now id cache ≡ some entry
      → (find_token id cache ≡ some entry) × (now + five_minutes < entry.expires_at)
  unfolding cached
  cached-some now id cache entry h = elim (Option-cases (find_token id cache)) [
    | inl e ↦ ground (arith, e)
    | inr (found, e) ↦ elim (Bool-cases (ltb (now + five_minutes) found.expires_at)) [
      | inr l ↦ ground (arith, e, l)
      | inl l ↦
          let same : found ≡ entry = ground (arith, e, l, h) in
          (
            e ∙ ap some same,
            subst (λ z. now + five_minutes < z.expires_at) same (ground (arith, l)),
          )
    ]
  ]

  -- A token that is answered is the cached one of the installation, valid for more than five
  -- minutes, and then nothing has changed, or it was granted by one request for this installation
  -- that the server answered with 201, and then it is the cached one and those of the other
  -- installations are as before; an error leaves the cache.
  pub get_installation_token-Comes :
      (now id : ℕ) (c : Client K) (r : R)
      → Comes now id (c, r) (get_installation_token gh now id (c, r))
  unfolding get_installation_token
  get_installation_token-Comes now id c r = elim (Option-cases (cached now id c.token_cache)) [
    | inl e ↦
        rw (e, get_installation_token)
          (fetched-Comes now id c r (generate_app_jwt gh now c) (jwt-token_cache now c))
    | inr (entry, e) ↦
        rw (e, get_installation_token)
          (inl (
            let (found, valid) = cached-some now id c.token_cache entry e in
            (found, valid, refl, refl)))
  ]

  cached-found :
      (now id : ℕ) (cache : List (ℕ × TokenCacheEntry)) (entry : TokenCacheEntry)
      → find_token id cache ≡ some entry
      → now + five_minutes < entry.expires_at
      → cached now id cache ≡ some entry
  unfolding cached
  cached-found now id cache entry h l = ground (arith, h, l)

  Comes-found :
      (now id : ℕ) (c c' : Client K) (r r' : R) (entry : TokenCacheEntry)
      → Comes now id (c, r) (ok entry, (c', r'))
      → find_token id c'.token_cache ≡ some entry
  Comes-found now id c c' r r' entry (inl (found, valid, same, _)) =
      ap (λ z. find_token id z.token_cache) same ∙ found
  Comes-found now id c c' r r' entry (inr g) = g.stored id ∙ ground arith

  -- Once a token was answered, asking again while it is valid for more than five minutes answers the
  -- same token, and makes no request.
  get_installation_token_again :
      (now later id : ℕ) (c c' : Client K) (r r' r'' : R) (entry : TokenCacheEntry)
      → get_installation_token gh now id (c, r) ≡ (ok entry, (c', r'))
      → later + five_minutes < entry.expires_at
      → get_installation_token gh later id (c', r'') ≡ (ok entry, (c', r''))
  unfolding get_installation_token
  get_installation_token_again now later id c c' r r' r'' entry h valid =
      rw
        (
          cached-found later id c'.token_cache entry
              (Comes-found now id c c' r r' entry
                (subst (Comes now id (c, r)) h (get_installation_token-Comes now id c r)))
              valid,
          get_installation_token,
        )
        refl
