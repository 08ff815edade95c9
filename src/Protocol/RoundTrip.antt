-- ===== src/Protocol/RoundTrip.antt =====
-- protocol/src/mercury.rs and protocol/src/pubsub.rs: a message is read as it was written.
use spotify_connect_scrobble.Prelude.{
  ℕ, ◌≡◌, refl, ◌∙◌, List, [], ◌∷◌, ◌++◌, map, Option, none, some, Bool, true, ◌||◌, ◌==◌, All,
  append_assoc, append-nil, arith,
}
use spotify_connect_scrobble.Prelude.Words.{Bytes}
use spotify_connect_scrobble.Prelude.Int.{ℤ, IsI32}
use spotify_connect_scrobble.Protocol.{
  Field, IsTagged, Runtime, merge_fields, write_string, write_varint,
}
use spotify_connect_scrobble.Protocol.Fields.{
  OnSome, IsKept, write_string-IsTagged, write_varint-IsTagged, merge-write_string,
  merge-write_varint, merge-unknown_fields,
}
use spotify_connect_scrobble.Protocol.Header
use spotify_connect_scrobble.Protocol.Header.{
  UserField, Header, new_user_field, merge_user_field, read_user_field, user_field_fields,
  write_user_field, header_fields,
}
use spotify_connect_scrobble.Protocol.Subscription
use spotify_connect_scrobble.Protocol.Subscription.{Subscription, subscription_fields}

abbrev is_user_field : ℕ → Bool
is_user_field n = n == 1 || n == 2

abbrev is_subscription : ℕ → Bool
is_subscription n = n == 1 || (n == 2 || n == 3)

abbrev is_header : ℕ → Bool
is_header n = n == 1 || (n == 2 || (n == 3 || (n == 4 || n == 6)))

module _ (R : Runtime) where
  abbrev IsText : Bytes → Type 0
  IsText text = R.is_utf8 text ≡ true

  abbrev pub IsUserField : UserField R → Type 0
  IsUserField f = OnSome IsText f.key × IsKept R is_user_field f.unknown_fields

  -- The texts of a header are UTF-8, and its status fits.
  pub record IsHeader (h : Header R) : Type 0 where
    pub uri_is_text : OnSome IsText h.uri
    pub content_type_is_text : OnSome IsText h.content_type
    pub method_is_text : OnSome IsText h.method
    pub status_code_fits : OnSome IsI32 h.status_code
    pub user_fields_are : All IsUserField h.user_fields
    pub unknown_are_kept : IsKept R is_header h.unknown_fields

  user_field-IsTagged : (f : UserField R) → IsUserField f → All IsTagged (user_field_fields R f)
  user_field-IsTagged f (t, k) =
      write_string-IsTagged R 1 f.key _ (omega arith) (omega arith)
        (write_string-IsTagged R 2 f.value _ (omega arith) (omega arith) k.tagged)

  user_fields-IsTagged :
      (fs : List (UserField R)) (rest : List Field)
      → All IsTagged rest
      → All IsTagged (map (write_user_field R) fs ++ rest)
  user_fields-IsTagged [] rest h = h
  user_fields-IsTagged (f ∷ fs) rest h =
      ((omega arith, omega arith), user_fields-IsTagged fs rest h)

  header-IsTagged : (h : Header R) → IsHeader h → All IsTagged (header_fields R h)
  header-IsTagged h w = write_string-IsTagged R 1 h.uri _ (omega arith) (omega arith) (
      write_string-IsTagged R 2 h.content_type _ (omega arith) (omega arith) (
        write_string-IsTagged R 3 h.method _ (omega arith) (omega arith) (
          write_varint-IsTagged R R.write_sint32 4 h.status_code _ (omega arith) (omega arith)
            (user_fields-IsTagged h.user_fields _ w.unknown_are_kept.tagged))))

  OnSome-any : (o : Option Bytes) → OnSome (λ bytes. Unit) o
  OnSome-any none = tt
  OnSome-any (some bytes) = tt

  read-write_user_field :
      (f : UserField R) → IsUserField f → read_user_field R (write_user_field R f).1 ≡ some f
  unfolding merge_user_field
  read-write_user_field f (t, k) =
      let u = R.no_fields in
      let tail = R.unknown_fields f.unknown_fields in
      let merge = merge_user_field R in
      rw (R.read-write_fields (user_field_fields R f) (user_field-IsTagged f (t, k))) (
        merge-write_string R merge 1 (λ o. record { key = o; value = none; unknown_fields = u })
          IsText (write_string R 2 f.value ++ tail) (λ text h. rw h refl) f.key t
        ∙ merge-write_string R merge 2 (λ o. record { key = f.key; value = o; unknown_fields = u })
            (λ bytes. Unit) tail (λ bytes h. refl) f.value (OnSome-any f.value)
        ∙ merge-unknown_fields R merge is_user_field
            (λ u. record { key = f.key; value = f.value; unknown_fields = u })
            (λ number content u h. ground arith) f.unknown_fields k)

  -- The inner messages of a header go behind those that are there.
  merge-user_fields :
      (fs done : List (UserField R)) (uri content_type method : Option Bytes) (status : Option ℤ)
      (rest : List Field)
      → All IsUserField fs
      → let with_user_fields : List (UserField R) → Header R = λ user_fields. record {
        uri = uri;
        content_type = content_type;
        method = method;
        status_code = status;
        user_fields = user_fields;
        unknown_fields = R.no_fields;
      } in
        merge_fields (Header.merge R) (map (write_user_field R) fs ++ rest) (with_user_fields done)
        ≡ merge_fields (Header.merge R) rest (with_user_fields (done ++ fs))
  unfolding merge_fields Header.merge
  merge-user_fields [] done uri content_type method status rest h = rw (append-nil done) refl
  merge-user_fields (f ∷ fs) done uri content_type method status rest (h, hs) =
      rw (read-write_user_field f h) (
        merge-user_fields fs (done ++ f ∷ []) uri content_type method status rest hs
        ∙ rw (append_assoc done (f ∷ []) fs) refl)

  -- A header whose texts are UTF-8, whose status is an `i32`, and whose unknown fields, under numbers
  -- of tags that are none of its own, are kept as they were written, is read back as it was written,
  -- with its user fields in order.
  pub parse-write : (h : Header R) → IsHeader h → Header.parse R (Header.write R h) ≡ some h
  unfolding Header.parse Header.write Header.merge
  parse-write h w =
      let merge = Header.merge R in
      let u = R.no_fields in
      let r5 = R.unknown_fields h.unknown_fields in
      let r4 = map (write_user_field R) h.user_fields ++ r5 in
      let r3 = write_varint R R.write_sint32 4 h.status_code ++ r4 in
      let r2 = write_string R 3 h.method ++ r3 in
      let r1 = write_string R 2 h.content_type ++ r2 in
      rw (R.read-write_fields (header_fields R h) (header-IsTagged h w)) (
        merge-write_string R merge 1
          (λ o. record {
            uri = o;
            content_type = none;
            method = none;
            status_code = none;
            user_fields = [];
            unknown_fields = u;
          })
          IsText r1 (λ text k. rw k refl) h.uri w.uri_is_text
        ∙ merge-write_string R merge 2
            (λ o. record {
              uri = h.uri;
              content_type = o;
              method = none;
              status_code = none;
              user_fields = [];
              unknown_fields = u;
            })
            IsText r2 (λ text k. rw k refl) h.content_type w.content_type_is_text
        ∙ merge-write_string R merge 3
            (λ o. record {
              uri = h.uri;
              content_type = h.content_type;
              method = o;
              status_code = none;
              user_fields = [];
              unknown_fields = u;
            })
            IsText r3 (λ text k. rw k refl) h.method w.method_is_text
        ∙ merge-write_varint R merge R.write_sint32 4
            (λ o. record {
              uri = h.uri;
              content_type = h.content_type;
              method = h.method;
              status_code = o;
              user_fields = [];
              unknown_fields = u;
            })
            r4 (λ n k. rw (R.read-write_sint32 n k) refl) h.status_code w.status_code_fits
        ∙ merge-user_fields h.user_fields [] h.uri h.content_type h.method h.status_code r5
            w.user_fields_are
        ∙ merge-unknown_fields R merge is_header (λ u. record h { unknown_fields = u })
            (λ number content u k. ground arith) h.unknown_fields w.unknown_are_kept)

  pub record IsSubscription (s : Subscription R) : Type 0 where
    pub uri_is_text : OnSome IsText s.uri
    pub expiry_fits : OnSome IsI32 s.expiry
    pub status_code_fits : OnSome IsI32 s.status_code
    pub unknown_are_kept : IsKept R is_subscription s.unknown_fields

  subscription-IsTagged :
      (s : Subscription R) → IsSubscription s → All IsTagged (subscription_fields R s)
  subscription-IsTagged s w = write_string-IsTagged R 1 s.uri _ (omega arith) (omega arith) (
      write_varint-IsTagged R R.write_int32 2 s.expiry _ (omega arith) (omega arith) (
        write_varint-IsTagged R R.write_int32 3 s.status_code _ (omega arith) (omega arith)
          w.unknown_are_kept.tagged))

  -- So is a subscription, whose numbers are plain ones.
  pub parse-write_subscription :
      (s : Subscription R)
      → IsSubscription s
      → Subscription.parse R (Subscription.write R s) ≡ some s
  unfolding Subscription.parse Subscription.write Subscription.merge
  parse-write_subscription s w =
      let merge = Subscription.merge R in
      let u = R.no_fields in
      let r3 = R.unknown_fields s.unknown_fields in
      let r2 = write_varint R R.write_int32 3 s.status_code ++ r3 in
      let r1 = write_varint R R.write_int32 2 s.expiry ++ r2 in
      rw (R.read-write_fields (subscription_fields R s) (subscription-IsTagged s w)) (
        merge-write_string R merge 1
          (λ o. record { uri = o; expiry = none; status_code = none; unknown_fields = u }) IsText r1
          (λ text k. rw k refl) s.uri w.uri_is_text
        ∙ merge-write_varint R merge R.write_int32 2
            (λ o. record { uri = s.uri; expiry = o; status_code = none; unknown_fields = u }) r2
            (λ n k. rw (R.read-write_int32 n k) refl) s.expiry w.expiry_fits
        ∙ merge-write_varint R merge R.write_int32 3
            (λ o. record { uri = s.uri; expiry = s.expiry; status_code = o; unknown_fields = u }) r3
            (λ n k. rw (R.read-write_int32 n k) refl) s.status_code w.status_code_fits
        ∙ merge-unknown_fields R merge is_subscription (λ u. record s { unknown_fields = u })
            (λ number content u k. ground arith) s.unknown_fields w.unknown_are_kept)
