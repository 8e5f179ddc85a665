-- ===== src/Renderer/WorkerErrors.antt =====
-- `mafw_gst_renderer_manage_error` as the worker calls it, with the table that makes an error of MAFW of
-- one that the worker sends, and `uri_is_stream` of mafw-gst-renderer-utils.c.
use mafw.Common.{
  Bool, true, false, not, ◌&&◌, ◌≡◌, ◌↔◌, ◌⊎◌, eq→==, arith, refl, ◌∙◌, sym, ap, Option, none, some,
  [], ◌∷◌, ◌==◌, if◌then◌else◌, if_elim, Bool-cases, inl, inr, if_true, if_false,
}
use mafw.Aplaylist.Types.{Text}
use mafw.Renderer.Types.{
  renderer_error, extension_error, Code, failed_code, stream_disconnected, out_of_memory,
  network_down, invalid_uri, media_not_found, corrupted_file, cannot_set_position,
  type_not_available, unsupported_type, codec_not_found, drm, GError, g_error, Renderer, Host,
}
use mafw.Renderer.Policy.{code_number, code_of, is_out_of_memory, manage_error}

-- The codes of GST_RESOURCE_ERROR that have a `case`, and all others.
pub data ResourceError : Type 0 where
  resource_read resource_not_found resource_open_read_write resource_open_read
        resource_no_space_left resource_write resource_seek resource_other :
      ResourceError

-- Likewise those of GST_STREAM_ERROR.
pub data StreamError : Type 0 where
  stream_type_not_found stream_format stream_wrong_type stream_failed stream_decode stream_demux
        stream_codec_not_found stream_decrypt stream_decrypt_nokey stream_other :
      StreamError

-- An error by its domain; `mafw_error` has a code of MAFW_RENDERER_ERROR.
pub data WorkerError : Type 0 where
  gst_resource : ResourceError → WorkerError
  gst_stream : StreamError → WorkerError
  gst_renderer_error other_error : WorkerError
  mafw_error : Code → WorkerError

-- Whether the code is built with HAVE_CONIC, there is a connection (`connected`), and the clip is a
-- stream (`is_current_uri_stream`).
pub record Network : Type 0 where
  pub have_conic : Bool
  pub connected : Bool
  pub is_stream : Bool

-- A stream, where the connection is known to be down.
unfoldable pub is_down : Network → Bool
is_down n = n.have_conic && n.is_stream && not n.connected

unfoldable pub network_or : Network → Code → GError
unfolding is_down
network_or n code =
    if is_down n then g_error extension_error network_down else g_error renderer_error code

unfoldable pub resource_error : Network → ResourceError → GError
unfolding network_or
resource_error n resource_read =
    if n.is_stream then network_or n stream_disconnected else g_error extension_error failed_code
resource_error n resource_not_found = network_or n invalid_uri
resource_error n resource_open_read_write = network_or n media_not_found
resource_error n resource_open_read = network_or n media_not_found
resource_error n resource_no_space_left = g_error extension_error out_of_memory
resource_error n resource_write = g_error renderer_error corrupted_file
resource_error n resource_seek = g_error renderer_error cannot_set_position
resource_error n resource_other = g_error extension_error failed_code

unfoldable pub stream_error : StreamError → GError
stream_error stream_type_not_found = g_error renderer_error type_not_available
stream_error stream_format = g_error renderer_error unsupported_type
stream_error stream_wrong_type = g_error renderer_error unsupported_type
stream_error stream_failed = g_error renderer_error unsupported_type
stream_error stream_decode = g_error renderer_error corrupted_file
stream_error stream_demux = g_error renderer_error corrupted_file
stream_error stream_codec_not_found = g_error renderer_error codec_not_found
stream_error stream_decrypt = g_error renderer_error drm
stream_error stream_decrypt_nokey = g_error renderer_error drm
stream_error stream_other = g_error extension_error failed_code

unfoldable pub new_error : Network → WorkerError → GError
unfolding resource_error stream_error
new_error n (gst_resource e) = resource_error n e
new_error n (gst_stream e) = stream_error e
new_error n gst_renderer_error = g_error renderer_error unsupported_type
new_error n (mafw_error code) = g_error renderer_error code
new_error n other_error = g_error extension_error failed_code

-- `g_str_has_prefix`.
unfoldable pub has_prefix : Text → Text → Bool
has_prefix s [] = true
has_prefix [] (p ∷ ps) = false
has_prefix (c ∷ s) (p ∷ ps) = c == p && has_prefix s ps

-- All that does not start with "file://".
unfoldable pub uri_is_stream : Option Text → Bool
unfolding has_prefix
uri_is_stream none = false
uri_is_stream (some uri) =
    not (has_prefix uri (b'f' ∷ b'i' ∷ b'l' ∷ b'e' ∷ b':' ∷ b'/' ∷ b'/' ∷ []))

-- The errors of the worker, with the state of the network.
unfoldable pub error_handler :
    {S : Type 0} → Host S → (have_conic connected : Bool) → WorkerError → Renderer S → Renderer S
unfolding new_error uri_is_stream manage_error
error_handler h have_conic connected e r =
    manage_error h
      (new_error
        (record {
          have_conic = have_conic;
          connected = connected;
          is_stream = uri_is_stream r.media.uri;
        })
        e)
      r

-- The policy is left aside, and the playback stopped, for a full disk and for an error of the renderer
-- whose code has the number of MAFW_EXTENSION_ERROR_OUT_OF_MEMORY, as MAFW_RENDERER_ERROR_UNSUPPORTED_FPS
-- has, and for no other error of the worker.
pub new_error_stops :
    (n : Network) (e : WorkerError)
    → (is_out_of_memory (new_error n e) ≡ true) ↔ (
        (e ≡ gst_resource resource_no_space_left)
        ⊎ ((code : Code) × (e ≡ mafw_error code) × (code_number code ≡ code_number out_of_memory)))
unfolding new_error is_out_of_memory code_of code_number
new_error_stops n e = (stops e, back)
  where
    Stops : WorkerError → Type 0
    Stops e =
        (e ≡ gst_resource resource_no_space_left)
        ⊎ ((code : Code) × (e ≡ mafw_error code) × (code_number code ≡ code_number out_of_memory))

    back : Stops e → is_out_of_memory (new_error n e) ≡ true
    back (inl full) = ap (λ w. is_out_of_memory (new_error n w)) full
    back (inr (code, same, number)) =
        ap (λ w. is_out_of_memory (new_error n w)) same ∙ eq→== _ _ number

    network_code :
        (code : Code)
        → (code_number code == 10) ≡ false
        → is_out_of_memory (network_or n code) ≡ false
    network_code code other =
        if_elim (λ w. is_out_of_memory w ≡ false) (is_down n) (λ _. refl) λ _. other

    stops : (e : WorkerError) → is_out_of_memory (new_error n e) ≡ true → Stops e
    stops (gst_resource resource_read) h = elim (Bool-cases n.is_stream) [
      | inl s ↦ cc (
          sym (network_code stream_disconnected refl)
          ∙ ap is_out_of_memory (sym (if_true _ _ _ s))
          ∙ h)
      | inr s ↦ cc (ap is_out_of_memory (sym (if_false _ _ _ s)) ∙ h)
    ]
    stops (gst_resource resource_not_found) h = cc (sym (network_code invalid_uri refl) ∙ h)
    stops (gst_resource resource_open_read_write) h =
        cc (sym (network_code media_not_found refl) ∙ h)
    stops (gst_resource resource_open_read) h = cc (sym (network_code media_not_found refl) ∙ h)
    stops (gst_resource resource_no_space_left) h = inl refl
    stops (gst_resource resource_write) h = cc h
    stops (gst_resource resource_seek) h = cc h
    stops (gst_resource resource_other) h = cc h
    stops (gst_stream stream_type_not_found) h = cc h
    stops (gst_stream stream_format) h = cc h
    stops (gst_stream stream_wrong_type) h = cc h
    stops (gst_stream stream_failed) h = cc h
    stops (gst_stream stream_decode) h = cc h
    stops (gst_stream stream_demux) h = cc h
    stops (gst_stream stream_codec_not_found) h = cc h
    stops (gst_stream stream_decrypt) h = cc h
    stops (gst_stream stream_decrypt_nokey) h = cc h
    stops (gst_stream stream_other) h = cc h
    stops gst_renderer_error h = cc h
    stops (mafw_error code) h = inr (code, refl, ground (arith, h))
    stops other_error h = cc h
