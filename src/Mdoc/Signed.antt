-- ===== src/Mdoc/Signed.antt =====
-- Build of internal/mdoc/builder.go: what a verifier finds in the issuer-signed structure.
use fikua_lab_issuer.Mdoc.Builder.{Builder}
use fikua_lab_issuer.Mdoc.Builder.{Builder}
use fikua_lab_issuer.Mdoc.Builder.{build_mdoc, mso_of, mso_struct}
use fikua_lab_issuer.Mdoc.Cose.{sign_cose_sign1}
use fikua_lab_issuer.Mdoc.Digests.{AreItemsOf, Matches, build_namespace_items-AreItemsOf}
use fikua_lab_issuer.Mdoc.Item.{NamespaceDigest}
use fikua_lab_issuer.Mdoc.Signature.{IsRawSignature, sign_raw_p1363-IsRawSignature}
use fikua_lab_issuer.Platform.{Platform, Time, byte_string, tagged}
use fikua_lab_issuer.Prelude.{List, Option, ℕ, ◌≡◌}
use fikua_lab_issuer.Result.Exec.{Result, and_then-ok, ok}
use fikua_lab_issuer.Mdoc.Layout.{
  IsDeviceKey, device_key_info-IsDeviceKey, issuer_signed-lem, issuer_signed_layout, mso_struct-lem,
  security_object, signed_layout, to_be_signed_layout,
}
use fikua_lab_issuer.Platform.{entry, integer, map_of, no_pairs}
use fikua_lab_issuer.Prelude.{ap, sym, ◌∙◌}
use fikua_lab_issuer.Prelude.Int.{negsuc, pos}
use fikua_lab_issuer.Mdoc.Layout.{cose_sign1-lem, sig_structure-lem}

module _ {Key KeySet : Type 0} (p : Platform Key KeySet) where
  -- The steps from the elements to the structure, each with what it encodes.
  pub record IsIssuerSigned (now : Time) (b : Builder Key) (out : List ℕ) : Type 0 where
    pub nd : NamespaceDigest
    pub device : Option (List ℕ × List ℕ)
    pub mso_bytes : List ℕ
    pub payload : List ℕ
    pub protected : List ℕ
    pub to_be_signed : List ℕ
    pub signature : List ℕ
    pub issuer_auth : List ℕ
    pub items : AreItemsOf p 0 b.elements nd.tagged_items
    pub digests : Matches p nd
    pub bound : IsDeviceKey p b.device_key device
    pub mso : p.marshal_cbor (security_object p now b nd.digests device) ≡ ok mso_bytes
    pub wrapped : p.marshal_cbor (tagged 24 (byte_string mso_bytes)) ≡ ok payload
    pub algorithm :
        p.marshal_cbor (map_of (entry (integer (pos 1)) (integer (negsuc 6)) no_pairs))
        ≡ ok protected
    pub covered : p.marshal_cbor (to_be_signed_layout protected payload) ≡ ok to_be_signed
    pub signed : IsRawSignature p to_be_signed signature
    pub auth :
        p.marshal_cbor (signed_layout protected b.x5c_chain payload signature) ≡ ok issuer_auth
    pub structure :
        p.marshal_cbor (issuer_signed_layout issuer_auth b.namespace nd.tagged_items) ≡ ok out

  pub build_mdoc-IsIssuerSigned :
      (now : Time) (random : ℕ → Result (List ℕ)) (b : Builder Key) (out : List ℕ)
      → build_mdoc p now random b ≡ ok out
      → IsIssuerSigned now b out
  unfolding build_mdoc sign_cose_sign1
  build_mdoc-IsIssuerSigned now random b out h =
      let (nd, made, h1) = and_then-ok _ _ out h in
      let (device_key, bound, h2) = and_then-ok _ _ out h1 in
      let (mso_bytes, mso, h3) = and_then-ok _ _ out h2 in
      let (payload, wrapped, h4) = and_then-ok _ _ out h3 in
      let (issuer_auth, signing, structure) = and_then-ok _ _ out h4 in
      let (protected, header, h5) = and_then-ok _ _ issuer_auth signing in
      let (to_be_signed, covered, h6) = and_then-ok _ _ issuer_auth h5 in
      let (signature, signed, auth) = and_then-ok _ _ issuer_auth h6 in
      let (digests, items) = build_namespace_items-AreItemsOf p random b.elements nd made in
      let (device, known, key) = device_key_info-IsDeviceKey p b.device_key device_key bound in
      record {
        nd = nd;
        device = device;
        mso_bytes = mso_bytes;
        payload = payload;
        protected = protected;
        to_be_signed = to_be_signed;
        signature = signature;
        issuer_auth = issuer_auth;
        items = items;
        digests = digests;
        bound = known;
        mso =
            ap p.marshal_cbor (
              sym (mso_struct-lem p now b nd.digests device)
              ∙ ap (λ k. mso_struct (mso_of p b now nd.digests k)) (sym key))
            ∙ mso;
        algorithm = header;
        wrapped = wrapped;
        covered = ap p.marshal_cbor (sym (sig_structure-lem p protected payload)) ∙ covered;
        signed = sign_raw_p1363-IsRawSignature p to_be_signed signature signed;
        auth =
            ap p.marshal_cbor (sym (cose_sign1-lem p protected b.x5c_chain payload signature))
            ∙ auth;
        structure =
            ap p.marshal_cbor (sym (issuer_signed-lem issuer_auth b.namespace nd.tagged_items))
            ∙ structure;
      }
