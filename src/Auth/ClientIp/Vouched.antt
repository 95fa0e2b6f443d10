-- ===== src/Auth/ClientIp/Vouched.antt =====
-- Whom an address can come from.
use pgedge_postgres_mcp.Prelude.{
  String, ◌≡◌, refl, ap, ◌∙◌, ◌⊎◌, inl, inr, true, false, ◌&&◌, some, List, [], ◌∷◌, ◌++◌, arith,
  Bool-cases, Option-cases,
}
use pgedge_postgres_mcp.Auth.ClientIp.{
  AddressLibrary, ClientIpResolver, from_right, Incoming, parse_candidate_addr, is_trusted,
  reversed, candidates, resolve,
}

module _ {A P : Type 0} (lib : AddressLibrary A P) where
  -- Every entry is the address of a trusted proxy.
  abbrev pub AllTrusted : List P → List String → Type 0
  AllTrusted trusted [] = Unit {0}
  AllTrusted trusted (c ∷ cs) =
      ((a : A) × (parse_candidate_addr lib c ≡ some a) × (is_trusted lib trusted a ≡ true))
      × AllTrusted trusted cs

  -- The peer is a trusted proxy, and `a`, which is not one, is the address of an entry behind which
  -- there are trusted proxies only.
  pub record Vouched (r : ClientIpResolver P) (req : Incoming) (socket a : A) : Type 0 where
    pub left : List String
    pub entry : String
    pub right : List String
    pub reads_header : r.use_header ≡ true
    pub peer_trusted : is_trusted lib r.trusted socket ≡ true
    pub history : reversed (candidates lib req.header_values) [] ≡ right ++ entry ∷ left
    pub behind_trusted : AllTrusted r.trusted right
    pub entry_is : parse_candidate_addr lib entry ≡ some a
    pub not_trusted : is_trusted lib r.trusted a ≡ false

  -- What the loop returns is the peer, or an address behind trusted ones.
  from_right-cases :
      (trusted : List P) (socket : A) (cs : List String)
      → (from_right lib trusted socket cs ≡ socket)
        ⊎ ((a : A) × (right : List String) × (c : String) × (left : List String) × (cs
              ≡ right ++ c ∷ left)
            × AllTrusted trusted right
            × (parse_candidate_addr lib c ≡ some a)
            × (is_trusted lib trusted a ≡ false)
            × (from_right lib trusted socket cs ≡ a))
  unfolding from_right
  from_right-cases trusted socket [] = inl refl
  from_right-cases trusted socket (c ∷ cs) = elim (Option-cases (parse_candidate_addr lib c)) [
    | inl bad ↦ inl (ground (arith, bad))
    | inr (a, parsed) ↦ elim (Bool-cases (is_trusted lib trusted a)) [
      | inr stranger ↦
          inr (a, [], c, cs, refl, tt, parsed, stranger, ground (arith, parsed, stranger))
      | inl known ↦ elim (from_right-cases trusted socket cs) [
        | inl same ↦ inl (ground (arith, parsed, known, same))
        | inr (b, right, d, left, history, behind, is, stranger, result) ↦ inr (
          b,
          c ∷ right,
          d,
          left,
          ap (λ l. c ∷ l) history,
          ((a, parsed, known), behind),
          is,
          stranger,
          ground (arith, parsed, known, result),
        )
      ]
    ]
  ]

  -- The address of a request is that of its peer, unless the header is to be read and the peer is a
  -- trusted proxy; then it may also be that of an entry of the header's list, which is not a trusted
  -- proxy, behind which the list has trusted proxies only.
  pub resolve_sound :
      (r : ClientIpResolver P) (req : Incoming) (socket : A)
      → parse_candidate_addr lib req.remote_addr ≡ some socket
      → (resolve lib (some r) req ≡ lib.show socket)
        ⊎ ((a : A) × Vouched r req socket a × (resolve lib (some r) req ≡ lib.show a))
  unfolding resolve
  resolve_sound r req socket parsed =
      elim (Bool-cases (r.use_header && is_trusted lib r.trusted socket)) [
        | inr not_read ↦ inl (ground (arith, parsed, not_read))
        | inl read ↦
            elim (from_right-cases r.trusted socket
              (reversed (candidates lib req.header_values) [])) [
                | inl same ↦ inl (ground (arith, parsed, read, same))
                | inr (a, right, c, left, history, behind, is, stranger, result) ↦ inr (
                  a,
                  record {
                    left = left;
                    entry = c;
                    right = right;
                    reads_header = ground (arith, read);
                    peer_trusted = ground (arith, read);
                    history = history;
                    behind_trusted = behind;
                    entry_is = is;
                    not_trusted = stranger;
                  },
                  ground (arith, parsed, read, result),
                )
              ]
      ]

  trusted_are_skipped :
      (trusted : List P) (socket a : A) (right : List String) (c : String) (left : List String)
      → AllTrusted trusted right
      → parse_candidate_addr lib c ≡ some a
      → is_trusted lib trusted a ≡ false
      → from_right lib trusted socket (right ++ c ∷ left) ≡ a
  unfolding from_right
  trusted_are_skipped trusted socket a [] c left t is stranger = ground (arith, is, stranger)
  trusted_are_skipped trusted socket a (d ∷ right) c left ((b, parsed, known), t) is stranger =
      ground (arith, parsed, known, trusted_are_skipped trusted socket a right c left t is stranger)

  -- What a caller puts in front of the list is ignored: behind a trusted peer, where the list ends
  -- in an address that is not a trusted proxy and trusted proxies behind it, the request is
  -- attributed to that address, whatever stands before it.
  pub front_is_ignored :
      (r : ClientIpResolver P) (req : Incoming) (socket a : A) (right : List String) (c : String)
      (front : List String)
      → parse_candidate_addr lib req.remote_addr ≡ some socket
      → r.use_header ≡ true
      → is_trusted lib r.trusted socket ≡ true
      → reversed (candidates lib req.header_values) [] ≡ right ++ c ∷ front
      → AllTrusted r.trusted right
      → parse_candidate_addr lib c ≡ some a
      → is_trusted lib r.trusted a ≡ false
      → resolve lib (some r) req ≡ lib.show a
  unfolding resolve
  front_is_ignored r req socket a right c front parsed read known history t is stranger =
      let result : from_right lib r.trusted socket (reversed (candidates lib req.header_values) [])
          ≡ a =
        ap (from_right lib r.trusted socket) history
        ∙ trusted_are_skipped r.trusted socket a right c front t is stranger in
      ground (arith, parsed, read, known, result)
