-- ===== src/Publish/Previous.antt =====
-- `previousIndex`: the index that the next one follows.
use vps_sync_gsbs.Base.{
  ◌⊎◌, inl, inr, Option, none, some, [], ◌++◌, length, take, leb, ◌==◌, if◌then◌else◌,
}
use vps_sync_gsbs.Base.Int.{pos}
use vps_sync_gsbs.Text.{Text, text}
use vps_sync_gsbs.Text.Strings.{has_suffix}
use vps_sync_gsbs.Exec.{Error, Result, ok, err, panic, attempt, lift, ◌>>=◌}
use vps_sync_gsbs.Outside.{Outside, Index, Response}
use vps_sync_gsbs.World.{Io, read_file}

-- `store.PCGWBundleIndex{}`
abbrev pub no_index : Index
no_index = record {
  manifest_version = pos 0;
  full_version = pos 0;
  full_url = [];
  full_sha256 = [];
}

-- `io.ReadAll` of a body cut off at 1 MiB; an error behind the cut is not met.
unfoldable pub read_limited : Text × Option Error → Option Text
read_limited (t, none) = some (take 1048576 t)
read_limited (t, some e) = if leb 1048576 (length t) then some (take 1048576 t) else none

-- What the index's parser gives, and the zero index for an error.
abbrev pub parsed_or_none : Result Index → Result Index
parsed_or_none (ok i) = ok i
parsed_or_none (err e) = ok no_index
parsed_or_none (panic t) = panic t

unfoldable pub live_url : Text → Text
live_url base =
    if has_suffix base (text "/")
    then base ++ text "index.json"
    else base ++ (text "/" ++ text "index.json")

module _ (o : Outside) where
  live_body : Option Text → Result Index
  live_body none = ok no_index
  live_body (some raw) = parsed_or_none (o.parse_index raw)

  live_answer : Result Response → Result Index
  unfolding live_body read_limited
  live_answer (ok resp) =
      if resp.status == 200 then live_body (read_limited resp.body) else ok no_index
  live_answer (err e) = ok no_index
  live_answer (panic t) = panic t

  -- The index that is published at the base, the zero one if it cannot be read.
  unfoldable pub live_index : Text → Result Index
  unfolding live_answer live_url
  live_index public_base = live_answer (o.http_get (live_url public_base))

  -- What the local copy gives, and the published one behind it.
  local_parsed : Text → Result Index → Result Index
  local_parsed public_base (ok i) = ok i
  local_parsed public_base (err e) = live_index public_base
  local_parsed public_base (panic t) = panic t

  unfoldable pub index_after : Text → Text ⊎ Error → Result Index
  unfolding local_parsed
  index_after public_base (inl raw) = local_parsed public_base (o.parse_index raw)
  index_after public_base (inr e) = live_index public_base

-- `previousIndex`
unfoldable pub previous_index : {o : Outside} → Text → Text → Io o Index
previous_index {o} index_path public_base = do
  raw ← attempt (read_file index_path)
  lift (index_after o public_base raw)
