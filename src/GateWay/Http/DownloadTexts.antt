-- ===== src/GateWay/Http/DownloadTexts.antt =====
-- The texts of a download (GateWay/HTTPMessage/kvmap2pb.go): which of them must be UTF-8 for the
-- message of the request to be encoded. A `res_name` that is not is left out, but `request_id` and
-- the names of `keyname_list` are not checked.
use algogateway.Common.{Bytes, Dict, text, same, List, [], ◌++◌, All, ok, ◌≡◌, ◌∙◌, refl, sym}
use mathlib.Core.Path.{subst}
use algogateway.GateWay.Interfaces.{HttpDeps}
use algogateway.GateWay.Texts.{split, valid_string}
use algogateway.GateWay.Fields.{Field, text_value, set_fields, field_name}
use algogateway.GateWay.Fields.Request.{algo_center_request}
use algogateway.GateWay.Fields.Required.{set_fields_at}
use algogateway.GateWay.Fields.Encodable.{
  IsText, IsEncodable, AllEncodable, ok-injective, int-IsEncodable, text-IsEncodable,
  slice-IsEncodable, set_names,
}
use algogateway.GateWay.Fields.Encoding.{
  HasTextId, HasTextNames, Encodes, set_fields-AllEncodable, unset-Encodes, id-Encodes,
  param-Encodes, id-IsText, names-AreText, IsEncodable-at,
}

module _ (deps : HttpDeps) (kv : Dict Bytes) where
  open deps use {quote, new_uuid}

  module _ (fresh : IsText (text "auto_" ++ new_uuid)) (id : HasTextId kv)
      (names : HasTextNames kv) where
    fields-Encodes : All (Encodes quote new_uuid kv) algo_center_request
    unfolding text field_name split same valid_string
    fields-Encodes = (
      unset-Encodes quote new_uuid kv _ refl tt,
      (
        unset-Encodes quote new_uuid kv _ refl tt,
        (
          unset-Encodes quote new_uuid kv _ refl tt,
          (
            id-Encodes quote new_uuid kv _ (text "request_id") refl (λ e. cc) refl (λ e. cc) fresh
                id refl refl,
            (
              param-Encodes quote new_uuid kv _ (text "user_id") refl (λ e. cc) refl (λ e. cc)
                  (λ e. cc) tt
                  (λ param c given e.
                    int-IsEncodable quote 64 _ (text "user_id") param _ c refl tt e),
              (
                param-Encodes quote new_uuid kv _ (text "exp_list") refl (λ e. cc) refl (λ e. cc)
                    (λ e. cc) tt
                    (λ param c given e. slice-IsEncodable quote (text "exp_list") param _ c tt e),
                (
                  param-Encodes quote new_uuid kv _ (text "ret_count") refl (λ e. cc) refl (λ e. cc)
                      (λ e. cc) tt
                      (λ param c given e.
                        int-IsEncodable quote 32 _ (text "ret_count") param _ c refl tt e),
                  (
                    param-Encodes quote new_uuid kv _ (text "ll_id") refl (λ e. cc) refl (λ e. cc)
                        (λ e. cc) tt
                        (λ param c given e.
                          int-IsEncodable quote 64 _ (text "ll_id") param _ c refl tt e),
                    (
                      param-Encodes quote new_uuid kv _ (text "res_type") refl (λ e. cc) refl
                          (λ e. cc) (λ e. cc) tt
                          (λ param c given e.
                            int-IsEncodable quote 32 _ (text "res_type") param _ c refl tt e),
                      (
                        param-Encodes quote new_uuid kv _ (text "res_name") refl (λ e. cc) refl
                            (λ e. cc) (λ e. cc) refl
                            (λ param c given e.
                              text-IsEncodable quote (text "res_name") param (text_value []) c refl
                                e),
                        (
                          param-Encodes quote new_uuid kv _ (text "keyname_list") refl (λ e. cc)
                              refl (λ e. cc) (λ e. cc) tt
                              (λ param c given e.
                                subst IsEncodable
                                  (ok-injective
                                    (sym (set_names quote (text "keyname_list") param) ∙ e))
                                  (names param given)),
                          tt,
                        ),
                      ),
                    ),
                  ),
                ),
              ),
            ),
          ),
        ),
      ),
    )

    pub texts-AllEncodable :
        (filled : List Field)
        → set_fields quote new_uuid kv 0 algo_center_request ≡ ok filled
        → AllEncodable filled
    texts-AllEncodable filled done =
        set_fields-AllEncodable quote new_uuid kv algo_center_request 0 filled fields-Encodes done

  module _ (filled : List Field)
      (done : set_fields quote new_uuid kv 0 algo_center_request ≡ ok filled)
      (all : AllEncodable filled) where
    pub encoded-HasTextId : HasTextId kv
    unfolding text field_name split same
    encoded-HasTextId =
        let (c, set, at) =
          set_fields_at quote new_uuid kv 0 3 algo_center_request filled _ done refl in
        id-IsText quote new_uuid kv _ (text "request_id") refl (λ e. cc) refl (λ e. cc) 3 c refl
          refl set (IsEncodable-at filled 3 all at)

    pub encoded-HasTextNames : HasTextNames kv
    unfolding text field_name split same
    encoded-HasTextNames =
        let (c, set, at) =
          set_fields_at quote new_uuid kv 0 10 algo_center_request filled _ done refl in
        names-AreText quote new_uuid kv _ (text "keyname_list") refl (λ e. cc) refl (λ e. cc) 10 c
          (λ e. cc) refl refl refl set (IsEncodable-at filled 10 all at)
