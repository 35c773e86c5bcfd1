-- ===== src/Server/Output/Closing.antt =====
-- What the destructor of the server releases.
use audio_server.Common.{
  ℕ, ◌+◌, ◌≡◌, refl, ap, ◌∙◌, Bool, Bool-cases, ◌&&◌, inl, inr, some, arith, true, false,
  if◌then◌else◌,
}
use audio_server.Common.Int.{is_set}
use audio_server.Ffmpeg.{
  Call, History, Library, call, return, success, avcodec_free_context, avformat_free_context,
  avio_closep, av_audio_fifo_free, swr_free,
}
use audio_server.Ffmpeg.Ledger.{
  Resource, held, effect, when, releases, unchanged_held, released_held, format_context,
  output_file, codec_context, resampler, fifo,
}
use audio_server.Server.Output.{OutputMembers, destroy_output}
use audio_server.Server.Output.Owned.{owned, owns}

module _ (resource : Resource) (answer : Library) where
  -- A call that releases the resource `k` if `test` holds.
  freed :
      (c : Call) (k : Resource) (test : Bool) (h : History) (n : ℕ)
      → effect c (answer h c) ≡ when test (releases k)
      → held resource h ≡ some (n + owns test k resource)
      → held resource (call answer c h).1 ≡ some n
  unfolding call
  freed c k true h n e before = released_held resource c (answer h c) h n k e before
  freed c k false h n e before =
      unchanged_held resource c (answer h c) h n e (before ∙ ap some (omega arith))

  freed_if :
      (c : Call) (k : Resource) (test : Bool) (h : History) (n : ℕ)
      → effect c (answer h c) ≡ when test (releases k)
      → held resource h ≡ some (n + owns test k resource)
      → held resource ((if test then call answer c else return success) h).1 ≡ some n
  freed_if c k true h n e before = freed c k true h n e before
  freed_if c k false h n e before = before ∙ ap some (omega arith)

  -- The destructor releases exactly what the members point to.
  pub destroy_output-held :
      (o : OutputMembers) (h : History) (n : ℕ)
      → held resource h ≡ some (n + owned resource o)
      → held resource (destroy_output answer o h).1 ≡ some n
  unfolding destroy_output
  destroy_output-held o h n before = elim (Bool-cases (is_set o.ofmt_ctx)) [
    | inr e ↦ rw e (encoder_freed ∙ ap some (rw e (omega arith)))
    | inl e ↦ rw e (
        freed (avformat_free_context o.ofmt_ctx) format_context true _ n (rw e refl) (
          freed (avio_closep o.pb_open) output_file o.pb_open _ _ refl
            (encoder_freed ∙ ap some (rw e (omega arith)))))
  ]
    where
      files : ℕ
      files =
          owns (is_set o.ofmt_ctx) format_context resource
          + owns (is_set o.ofmt_ctx && o.pb_open) output_file resource

      encoder_freed :
          held resource
            ((if is_set o.enc_ctx
                then call answer (avcodec_free_context o.enc_ctx)
                else return success)
              (call answer
                (swr_free o.resample_context)
                ((if is_set o.audio_fifo
                    then call answer (av_audio_fifo_free o.audio_fifo)
                    else return success)
                  h).1).1).1
          ≡ some (n + files)
      encoder_freed = freed_if _ codec_context (is_set o.enc_ctx) _ _ refl (
          freed _ resampler (is_set o.resample_context) _ _ refl
            (freed_if _ fifo (is_set o.audio_fifo) h _ refl (before ∙ ap some (omega arith))))
