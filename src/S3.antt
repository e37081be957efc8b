-- ===== src/S3.antt =====
-- `class S3` of spikes/storage/s3.py: signed requests to an object store, and the statuses that they
-- accept. The digests and the server are parameters.
pub mod Bucket
use Prim.Native.String.{◌++◌ as ◌<>◌}
use klados.Base.{ℕ, String, Bool, ◌||◌, [], ◌==◌, if◌then◌else◌}
use klados.Base.Result.{Result, ok, err, failure}
use klados.Codec.{Bytes}

-- `hashlib` and `hmac`, with their binary digests as texts of one character for each byte
pub record Crypto : Type 0 where
  pub sha256_hex : Bytes → String
  -- `s.encode()`
  pub encode : String → Bytes
  pub hmac_sha256 : String → String → String
  pub hmac_sha256_hex : String → String → String

pub record Client : Type 0 where
  pub host : String
  pub access : String
  pub secret : String
  pub region : String

pub record Headers : Type 0 where
  pub authorization : String
  pub content_sha256 : String
  pub amz_date : String
  pub host : String

-- the two texts of the time at which a request is made
pub record Stamp : Type 0 where
  pub amzdate : String
  pub datestamp : String

abbrev pub signed_headers : String
signed_headers = "host;x-amz-content-sha256;x-amz-date"

module _ (k : Crypto) (c : Client) where
  unfoldable pub canonical_request : Stamp → String → String → String → String
  canonical_request t method uri payload_hash =
      method
      <> ("\n"
          <> (uri
              <> ("\n\n"
                  <> ("host:"
                      <> (c.host
                          <> ("\nx-amz-content-sha256:"
                              <> (payload_hash
                                  <> ("\nx-amz-date:"
                                      <> (t.amzdate
                                          <> ("\n\n"
                                              <> (signed_headers
                                                  <> ("\n" <> payload_hash))))))))))))

  unfoldable pub scope : Stamp → String
  scope t = t.datestamp <> ("/" <> (c.region <> "/s3/aws4_request"))

  unfoldable pub string_to_sign : Stamp → String → String
  unfolding scope
  string_to_sign t request =
      "AWS4-HMAC-SHA256\n"
      <> (t.amzdate <> ("\n" <> (scope t <> ("\n" <> k.sha256_hex (k.encode request)))))

  unfoldable pub signing_key : Stamp → String
  signing_key t =
      let date = k.hmac_sha256 ("AWS4" <> c.secret) t.datestamp in
      let region = k.hmac_sha256 date c.region in
      let service = k.hmac_sha256 region "s3" in k.hmac_sha256 service "aws4_request"

  -- `_sign_headers`
  unfoldable pub sign_headers : Stamp → String → String → Bytes → Headers
  unfolding canonical_request scope string_to_sign signing_key
  sign_headers t method uri payload =
      let payload_hash = k.sha256_hex payload in
      let request = canonical_request t method uri payload_hash in
      let signature = k.hmac_sha256_hex (signing_key t) (string_to_sign t request) in
      record {
        authorization =
            "AWS4-HMAC-SHA256 Credential="
            <> (c.access
                <> ("/"
                    <> (scope t
                        <> (", SignedHeaders="
                            <> (signed_headers <> (", Signature=" <> signature))))));
        content_sha256 = payload_hash;
        amz_date = t.amzdate;
        host = c.host;
      }

  -- A server whose states are `S`: method, URI, headers and body, to a status and a body.
  module _ {S : Type 0} (server : String → String → Headers → Bytes → S → (ℕ × Bytes) × S) where
    -- `_req`
    unfoldable pub req : Stamp → String → String → Bytes → S → (ℕ × Bytes) × S
    unfolding sign_headers
    req t method uri payload s = server method uri (sign_headers t method uri payload) payload s

    abbrev pub object_uri : String → String → String
    object_uri bucket key = "/" <> (bucket <> ("/" <> key))

    unfoldable pub make_bucket : Stamp → String → S → Bool × S
    unfolding req
    make_bucket t bucket s =
        let ((status, body), s') = req t "PUT" ("/" <> bucket) [] s in
        (status == 200 || status == 204 || status == 409, s')

    unfoldable pub put : Stamp → String → String → Bytes → S → Result (Unit {0}) × S
    unfolding req
    put t bucket key payload s =
        let ((status, body), s') = req t "PUT" (object_uri bucket key) payload s in
        (if status == 200 || status == 204 then ok tt else err (failure "S3 PUT"), s')

    unfoldable pub get : Stamp → String → String → S → Result Bytes × S
    unfolding req
    get t bucket key s =
        let ((status, body), s') = req t "GET" (object_uri bucket key) [] s in
        (if status == 200 then ok body else err (failure "S3 GET"), s')

    unfoldable pub head : Stamp → String → String → S → Bool × S
    unfolding req
    head t bucket key s =
        let ((status, body), s') = req t "HEAD" (object_uri bucket key) [] s in (status == 200, s')
