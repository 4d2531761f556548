-- ===== src/Config/Ranges.antt =====
-- service/src/config.rs: the ranges of the values that `from_map` lets through.
use green_relay.Prelude.{
  ℕ, ◌≤◌, ◌≡◌, refl, true, false, inl, leb, leb→le, arith, Within, returned, raised, Within-ok,
  Within-err, Result,
}
use green_relay.Text.{Text}
use green_relay.Text.Case.{member}
use green_relay.Logging.{parse_rotation, daily}
use green_relay.Config.{
  Config, ConfigError, Settings, within, parse, info, from_map, checked_addr, parse_u32_or_default,
  parse_u64_or_default, parse_bool_or_default, read_bool,
}
use green_relay.Config.Keys.{
  key_listen_addr, key_baud_rate, key_database_path, key_at_timeout_secs, key_default_rate_limit,
  key_rate_window_secs, key_log_level, key_log_rotation, key_log_max_files, key_reopen_max_attempts,
  key_send_max_attempts, key_send_retry_delay_secs, key_admin_cookie_secure, known_keys,
}
use green_relay.Config.Blame.{
  IsGiven, IsBlamed, >>=-Within, require-Within, read_or-Within, ensure-Within,
}

pub record IsValid {S : Type 0} (from_str : Text → Result S Text) (settings : Settings)
    (c : Config S) : Type 0 where
  pub listens :
      (raw : Text) × IsGiven settings key_listen_addr raw × (from_str raw ≡ Result.ok c.listen_addr)
  pub stores : IsGiven settings key_database_path c.database_path
  pub baud : 1 ≤ c.baud_rate
  pub at_timeout : (1 ≤ c.at_timeout_secs) × (c.at_timeout_secs ≤ 60)
  pub limit : (1 ≤ c.default_rate_limit) × (c.default_rate_limit ≤ 10000)
  pub window : 1 ≤ c.rate_window_secs
  pub log_files : c.log_max_files ≤ 10000
  pub reopens : (1 ≤ c.reopen_max_attempts) × (c.reopen_max_attempts ≤ 1000)
  pub sends : (1 ≤ c.send_max_attempts) × (c.send_max_attempts ≤ 100)
  pub retry_delay : c.send_retry_delay_secs ≤ 3600

within→le : (lo hi n : ℕ) → within lo hi n ≡ true → (lo ≤ n) × (n ≤ hi)
within→le lo hi n h = ground arith

module _ {S : Type 0} (from_str : Text → Result S Text) (settings : Settings) where
  checked_addr-Within :
      (raw : Text) (r : Result S Text)
      → IsGiven settings key_listen_addr raw
      → from_str raw ≡ r
      → Within
          (λ (a : S).
            (raw : Text) × IsGiven settings key_listen_addr raw × (from_str raw ≡ Result.ok a))
          (IsBlamed settings)
          (checked_addr from_str raw r)
  unfolding member known_keys
  checked_addr-Within raw (Result.ok a) s e = returned a refl (raw, s, e)
  checked_addr-Within raw (Result.err x) s e = raised _ refl (raw, s, inl refl, refl)

  from_map-Within :
      Within (IsValid from_str settings) (IsBlamed settings) (from_map from_str settings)
  unfolding from_map parse_u32_or_default parse_u64_or_default parse_bool_or_default member
      known_keys
  from_map-Within = >>=-Within _ _ (require-Within settings key_listen_addr refl) λ listen s1.
      >>=-Within _ _ (checked_addr-Within listen (from_str listen) s1 refl) λ addr s.
        >>=-Within _ _ (read_or-Within settings key_baud_rate refl _ _ 115200) λ baud r1.
          >>=-Within _ _ (ensure-Within settings key_baud_rate refl (leb 1) _ 115200 baud refl r1)
            λ _ h1. >>=-Within _ _ (require-Within settings key_database_path refl) λ path s2.
              >>=-Within _ _ (read_or-Within settings key_at_timeout_secs refl _ _ 5)
                λ at_timeout r2.
                  >>=-Within _ _
                    (ensure-Within settings key_at_timeout_secs refl (within 1 60) _ 5 at_timeout
                      refl r2)
                    λ _ h2.
                      >>=-Within _ _ (read_or-Within settings key_default_rate_limit refl _ _ 100)
                        λ limit r3.
                          >>=-Within _ _
                            (ensure-Within settings key_default_rate_limit refl (within 1 10000) _
                              100 limit refl r3)
                            λ _ h3.
                              >>=-Within _ _
                                (read_or-Within settings key_rate_window_secs refl _ _ 60)
                                λ window r4.
                                  >>=-Within _ _
                                    (ensure-Within settings key_rate_window_secs refl (leb 1) _ 60
                                      window refl r4)
                                    λ _ h4.
                                      >>=-Within _ _
                                        (read_or-Within settings key_log_level refl parse _ info)
                                        λ level _.
                                          >>=-Within _ _
                                            (read_or-Within settings key_log_rotation refl
                                              parse_rotation _ daily)
                                            λ rotation _.
                                              >>=-Within _ _
                                                (read_or-Within settings key_log_max_files refl _ _
                                                  7)
                                                λ files r5.
                                                  >>=-Within _ _
                                                    (ensure-Within settings key_log_max_files refl
                                                      (λ n. leb n 10000) _ 7 files refl r5)
                                                    λ _ h5.
                                                      >>=-Within _ _
                                                        (read_or-Within settings
                                                          key_reopen_max_attempts refl _ _ 10)
                                                        λ reopens r6.
                                                          >>=-Within _ _
                                                            (ensure-Within settings
                                                            key_reopen_max_attempts refl
                                                            (within 1 1000) _ 10 reopens refl r6)
                                                            λ _ h6.
                                                            >>=-Within _ _
                                                            (read_or-Within settings
                                                            key_send_max_attempts refl _ _ 3)
                                                            λ sends r7.
                                                            >>=-Within _ _
                                                            (ensure-Within settings
                                                            key_send_max_attempts refl
                                                            (within 1 100) _ 3 sends refl r7)
                                                            λ _ h7.
                                                            >>=-Within _ _
                                                            (read_or-Within settings
                                                            key_send_retry_delay_secs refl _ _ 5)
                                                            λ delay r8.
                                                            >>=-Within _ _
                                                            (ensure-Within settings
                                                            key_send_retry_delay_secs refl
                                                            (λ n. leb n 3600) _ 5 delay refl r8)
                                                            λ _ h8.
                                                            >>=-Within _ _
                                                            (read_or-Within settings
                                                            key_admin_cookie_secure refl read_bool _
                                                            false)
                                                            λ secure _. returned _ refl (record {
                                                            listens = s;
                                                            stores = s2;
                                                            baud = leb→le 1 baud h1;
                                                            at_timeout =
                                                            within→le 1 60 at_timeout h2;
                                                            limit = within→le 1 10000 limit h3;
                                                            window = leb→le 1 window h4;
                                                            log_files = leb→le files 10000 h5;
                                                            reopens = within→le 1 1000 reopens h6;
                                                            sends = within→le 1 100 sends h7;
                                                            retry_delay = leb→le delay 3600 h8;
                                                            })

  -- Every configuration that is read has the address and the database path of its map, which are
  -- set and not blank, and each number within the range that is documented for it.
  pub from_map-IsValid :
      (c : Config S) → from_map from_str settings ≡ Result.ok c → IsValid from_str settings c
  from_map-IsValid c h = Within-ok c from_map-Within h

  -- Every error of reading a configuration is about a known key: one whose value is missing or
  -- blank, or one that has a value which is not blank and which the error shows, with or without
  -- the blanks round it.
  pub from_map-IsBlamed :
      (e : ConfigError) → from_map from_str settings ≡ Result.err e → IsBlamed settings e
  from_map-IsBlamed e h = Within-err e from_map-Within h
