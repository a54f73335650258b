-- ===== src/Lptest/Parsing.antt =====
-- That the test program's accessors do not throw where the types match, and Object's callback.
use lopack.Prelude.{
  ℕ, true, List, [], ◌∷◌, some, ◌≡◌, refl, sym, ap, ◌∙◌, map, arith, get_elem?, All, inl, inr,
  Bool-cases, subst,
}
use lopack.Prelude.Text.{Text, codes}
use lopack.Outcome.{Result, returned, and_return}
use lopack.Liblo.{Arg}
use lopack.Received.Reader.{Reader}
use lopack.Received.Read.{ReceivedMessage, MessageSource, check_address_and_types, as_blob}
use lopack.Received.Contract.{tag, Contents}
use lopack.Received.Decode.{as_blob-unchecked}
use lopack.Received.Match.{check_address_and_types_iff}
use lopack.Lptest.Programs.{
  Shown, all_shown, object_items, parse_items, until_nul, blob_text, object_process,
}
use lopack.Lptest.Tags.{
  tag_elem, as_bool-tag, as_char-tag, as_int32-tag, as_int64-tag, as_float-tag, as_double-tag,
  as_string-tag, as_symbol-tag, as_midi_message-tag, as_time_tag-tag,
}

-- An item that can be shown.
abbrev pub Shows : Result Shown → Type 0
Shows r = (x : Shown) × (r ≡ returned x)

pub all_shown-Shows :
    (rs : List (Result Shown)) → All Shows rs → (xs : List Shown) × (all_shown rs ≡ returned xs)
all_shown-Shows [] good = ([], refl)
all_shown-Shows (r ∷ rs) ((x, e), good) =
    let (xs, es) = all_shown-Shows rs good in (x ∷ xs, ground (arith, e, es))

item :
    {A : Type 0} {r : Result A} (f : A → Shown)
    → ((v : A) × (r ≡ returned v))
    → Shows (and_return r f)
item f (v, h) = (f v, ap (λ r. and_return r f) h)

-- The blobs are C strings: each has a NUL.
abbrev pub HasNulArg : Arg → Type 0
HasNulArg (Arg.blob v) = (t : Text) × (until_nul v ≡ some t)
HasNulArg _ = Unit

blob-b : (a : Arg) → tag a ≡ b'b' → (v : List ℕ) × (a ≡ Arg.blob v)
unfolding tag
blob-b (Arg.blob v) e = (v, refl)
blob-b a e = ground arith

module _ {W : Type 0} (lo : Reader W) (msg : ReceivedMessage) (w : W) (args : List Arg)
    (c : Contents lo msg.message w args) where
  blob_text-returned :
      (at : ℕ)
      → get_elem? (map tag args) at ≡ some b'b'
      → ((a : Arg) → get_elem? args at ≡ some a → HasNulArg a)
      → (x : Shown) × (blob_text (as_blob lo at msg w) ≡ returned x)
  blob_text-returned at e nul =
      let (a, got, is) = tag_elem args at b'b' e in
      let (v, blob) = blob-b a is in
      let (b, reads, holds) =
        (as_blob-unchecked lo msg w args at c).0 (Arg.blob v) (got ∙ ap some blob) refl in
      let (t, ends) = subst HasNulArg blob (nul a got) in
      (Shown.text t, ground (arith, reads, holds v refl, ends))

  object_items-Shows :
      (source : MessageSource)
      → codes "ifs" ≡ map tag args
      → All Shows (object_items lo msg source w)
  object_items-Shows source spelt =
      let kth = (λ (i : ℕ). ap (λ t. get_elem? t i) (sym spelt)) in
      (
        (_, refl),
        (
          (_, refl),
          (
            (_, refl),
            (
              (_, refl),
              (
                (_, refl),
                (
                  (_, refl),
                  (
                    (_, refl),
                    (
                      (_, refl),
                      (
                        item Shown.int32 (as_int32-tag lo msg w args c 0 (kth 0)),
                        (
                          (_, refl),
                          (
                            item Shown.float (as_float-tag lo msg w args c 1 (kth 1)),
                            (
                              (_, refl),
                              (
                                item Shown.text (as_string-tag lo msg w args c 2 (kth 2)),
                                ((_, refl), tt),
                              ),
                            ),
                          ),
                        ),
                      ),
                    ),
                  ),
                ),
              ),
            ),
          ),
        ),
      )

  object_process-Shows :
      (root : Text) (source : MessageSource)
      → codes "ifs" ≡ map tag args
      → check_address_and_types lo root (codes "ifs") msg w ≡ true
      → (out : List Shown) × (object_process lo root msg source w ≡ returned (out, true))
  unfolding object_process
  object_process-Shows root source spelt match =
      let (out, shows) =
        all_shown-Shows (object_items lo msg source w) (object_items-Shows source spelt) in
      (out, rw (match, shows) refl)

  -- Object::processOscMessage never throws: it returns true exactly if the message has the object's
  -- root address and the types of an int32, a float and a string.
  pub object_process-returned :
      (root : Text) (source : MessageSource)
      → (out : List Shown) × (object_process lo root msg source w
          ≡ returned (out, check_address_and_types lo root (codes "ifs") msg w))
  unfolding object_process
  object_process-returned root source =
      elim (Bool-cases (check_address_and_types lo root (codes "ifs") msg w)) [
        | inl match ↦
            let (same, spelt) =
              (check_address_and_types_iff lo msg w args root (codes "ifs") c).0 match in
            let (out, runs) = object_process-Shows root source spelt match in
            (out, runs ∙ ap (λ b. returned (out, b)) (sym match))
        | inr match ↦ ([], ground (arith, match))
      ]

  pub parse_items-Shows :
      codes "TFcNIihfdsSmtb" ≡ map tag args
      → ((a : Arg) → get_elem? args 13 ≡ some a → HasNulArg a)
      → All Shows (parse_items lo msg w)
  parse_items-Shows spelt nul =
      let kth = (λ (i : ℕ). ap (λ t. get_elem? t i) (sym spelt)) in
      (
        (_, refl),
        (
          (_, refl),
          (
            (_, refl),
            (
              (_, refl),
              (
                item Shown.bool (as_bool-tag lo msg w args c 0 b'T' (inl refl) (kth 0)),
                (
                  (_, refl),
                  (
                    item Shown.bool (as_bool-tag lo msg w args c 1 b'F' (inr refl) (kth 1)),
                    (
                      (_, refl),
                      (
                        item Shown.char (as_char-tag lo msg w args c 2 (kth 2)),
                        (
                          (_, refl),
                          (
                            item Shown.int32 (as_int32-tag lo msg w args c 5 (kth 5)),
                            (
                              (_, refl),
                              (
                                item Shown.int64 (as_int64-tag lo msg w args c 6 (kth 6)),
                                (
                                  (_, refl),
                                  (
                                    item Shown.float (as_float-tag lo msg w args c 7 (kth 7)),
                                    (
                                      (_, refl),
                                      (
                                        item Shown.double (as_double-tag lo msg w args c 8 (kth 8)),
                                        (
                                          (_, refl),
                                          (
                                            item Shown.text
                                                (as_string-tag lo msg w args c 9 (kth 9)),
                                            (
                                              (_, refl),
                                              (
                                                item Shown.symbol
                                                    (as_symbol-tag lo msg w args c 10 (kth 10)),
                                                (
                                                  (_, refl),
                                                  (
                                                    item Shown.midi (
                                                        as_midi_message-tag lo msg w args c 11
                                                          (kth 11)),
                                                    (
                                                      (_, refl),
                                                      (
                                                        item (λ t. Shown.nat t.sec)
                                                            (as_time_tag-tag lo msg w args c 12
                                                            (kth 12)),
                                                        (
                                                          (_, refl),
                                                          (
                                                            item (λ t. Shown.nat t.frac)
                                                            (as_time_tag-tag lo msg w args c 12
                                                            (kth 12)),
                                                            (
                                                            (_, refl),
                                                            (
                                                            blob_text-returned 13 (kth 13) nul,
                                                            ((_, refl), tt),
                                                            ),
                                                            ),
                                                          ),
                                                        ),
                                                      ),
                                                    ),
                                                  ),
                                                ),
                                              ),
                                            ),
                                          ),
                                        ),
                                      ),
                                    ),
                                  ),
                                ),
                              ),
                            ),
                          ),
                        ),
                      ),
                    ),
                  ),
                ),
              ),
            ),
          ),
        ),
      )
