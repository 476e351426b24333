-- ===== src/Install/Files/Ids.antt =====
-- install-core.c: the texts of ids, written and read.
use coreland_lua_ada_load.Base.{
  ℕ, ◌-◌, ◌^◌, ◌<◌, ◌≤◌, Bytes, [], some, length, take_of_length_le, fmt_int, snprintf, sscanf_int,
  text_or, sscanf_int-fmt_int, length-fmt_int, ◌≡◌, ◌∙◌, ap, arith,
}
use coreland_lua_ada_load.Install.Posix.{install_fmt_id}
use coreland_lua_ada_load.Install.Files.{
  install_fmt_gid, install_fmt_uid, install_scan_gid, install_scan_uid,
}

-- A text that is shorter than the buffer is printed whole.
snprintf-short :
    (size : ℕ) (text : Bytes)
    → length text ≤ size - 1
    → size ≤ 1024
    → snprintf size text ≡ some text
unfolding snprintf
snprintf-short size text h b = ground (arith, take_of_length_le (size - 1) text h)

-- The text of every id, a user's or a group's, fits its buffer and is read back as the id.
pub install_scan-fmt :
    (id old : ℕ)
    → id < 2 ^ 32
    → (install_scan_uid (install_fmt_uid id) old ≡ (1, id))
      × (install_scan_gid (install_fmt_gid id) old ≡ (1, id))
unfolding install_fmt_uid install_scan_uid install_fmt_gid install_scan_gid
install_scan-fmt id old h = (again, again)
  where
    again : sscanf_int (text_or (snprintf install_fmt_id (fmt_int id)) []) old ≡ (1, id)
    again =
        ap (λ t. sscanf_int (text_or t []) old)
          (snprintf-short install_fmt_id (fmt_int id) (omega (arith, length-fmt_int id))
            (omega arith))
        ∙ sscanf_int-fmt_int id old h
