-- ===== src/TelegramFs/Module/Clean.antt =====
-- Whatever the kernel answers, the module leaves nothing registered after a failed init or after an exit.
use doomsday_kernel_modules.Base.{
  ℕ, zero, suc, ◌+◌, ◌≤◌, ◌<◌, ◌≡◌, ◌≢◌, refl, ◌∙◌, Bool, true, false, Bool-cases, inl, inr,
  ==_of_ne, ℕ_discrete, dec_lt, ◌==◌, if◌then◌else◌, arith,
}
use doomsday_kernel_modules.TelegramFs.Chat.{max_chats}
use doomsday_kernel_modules.TelegramFs.Module.{
  Answers, Registered, nothing, update, add_chats, remove_chats, err_bus_region, add_bus,
  telegram_init, telegram_exit,
}

-- Nothing is registered for the chats from number `n` on.
pub record IsBelow (n : ℕ) (reg : Registered) : Type 0 where
  pub no_cdev : (j : ℕ) → n ≤ j → reg.chat_cdev j ≡ false
  pub no_device : (j : ℕ) → n ≤ j → reg.chat_device j ≡ false

-- Nothing is registered but what belongs to the bus.
pub record IsClean (reg : Registered) : Type 0 where
  pub chats_region : reg.chats_region ≡ false
  pub class : reg.class ≡ false
  pub no_cdev : (j : ℕ) → reg.chat_cdev j ≡ false
  pub no_device : (j : ℕ) → reg.chat_device j ≡ false
  pub bus_region : reg.bus_region ≡ false
  pub bus_cdev : reg.bus_cdev ≡ false
  pub bus_device : reg.bus_device ≡ false

update_ne : (f : ℕ → Bool) (i j : ℕ) (v : Bool) → i ≢ j → update f i v j ≡ f j
update_ne f i j v ne = rw (==_of_ne ne)

-- Up to `i` the chats are removed.
update_removed :
    (f : ℕ → Bool) (i : ℕ)
    → ((j : ℕ) → j < i → f j ≡ false)
    → (j : ℕ) → j < i + 1
    → update f i false j ≡ false
update_removed f i below j less = elim (ℕ_discrete i j) [
  | yes e ↦ rw e (ground arith)
  | no ne ↦ update_ne f i j false ne ∙ below j (omega arith)
]

add_chats_rest :
    (answers : Answers) (top left i : ℕ) (reg : Registered)
    → i + left ≤ top
    → IsBelow top reg
    → IsBelow top (add_chats answers left i reg)
      × ((add_chats answers left i reg).bus_region ≡ reg.bus_region)
      × ((add_chats answers left i reg).bus_cdev ≡ reg.bus_cdev)
      × ((add_chats answers left i reg).bus_device ≡ reg.bus_device)
unfolding add_chats
add_chats_rest answers top zero i reg h below = (below, refl, refl, refl)
add_chats_rest answers top (suc left) i reg h below =
    add_chats_rest answers top left (i + 1) _ (omega arith) record {
      no_cdev = λ j far. update_ne reg.chat_cdev i j _ (omega arith) ∙ below.no_cdev j far;
      no_device = λ j far. update_ne reg.chat_device i j _ (omega arith) ∙ below.no_device j far;
    }

remove_chats_rest :
    (left i : ℕ) (reg : Registered)
    → ((j : ℕ) → j < i → reg.chat_cdev j ≡ false)
    → ((j : ℕ) → j < i → reg.chat_device j ≡ false)
    → IsBelow (i + left) reg
    → ((j : ℕ) → (remove_chats left i reg).chat_cdev j ≡ false)
      × ((j : ℕ) → (remove_chats left i reg).chat_device j ≡ false)
      × ((remove_chats left i reg).bus_region ≡ reg.bus_region)
      × ((remove_chats left i reg).bus_cdev ≡ reg.bus_cdev)
      × ((remove_chats left i reg).bus_device ≡ reg.bus_device)
unfolding remove_chats
remove_chats_rest zero i reg cdevs devices below = (
  λ j. elim (dec_lt j i) [ yes less ↦ cdevs j less | no far ↦ below.no_cdev j (omega arith) ],
  λ j. elim (dec_lt j i) [ yes less ↦ devices j less | no far ↦ below.no_device j (omega arith) ],
  refl,
  refl,
  refl,
)
remove_chats_rest (suc left) i reg cdevs devices below =
    remove_chats_rest left (i + 1) _ (update_removed reg.chat_cdev i cdevs)
      (update_removed reg.chat_device i devices)
      record {
        no_cdev =
            λ j far. update_ne reg.chat_cdev i j _ (omega arith) ∙ below.no_cdev j (omega arith);
        no_device = λ j far.
            update_ne reg.chat_device i j _ (omega arith) ∙ below.no_device j (omega arith);
      }

err_bus_region-IsClean :
    (reg : Registered)
    → IsBelow max_chats reg
    → reg.bus_region ≡ false
    → reg.bus_cdev ≡ false
    → reg.bus_device ≡ false
    → IsClean (err_bus_region reg)
unfolding err_bus_region
err_bus_region-IsClean reg below region cdev device =
    let (cdevs, devices, same_region, same_cdev, same_device) =
      remove_chats_rest max_chats 0 reg (λ j h. absurd (omega arith)) (λ j h. absurd (omega arith))
        below in
    record {
      chats_region = refl;
      class = refl;
      no_cdev = cdevs;
      no_device = devices;
      bus_region = same_region ∙ region;
      bus_cdev = same_cdev ∙ cdev;
      bus_device = same_device ∙ device;
    }

nothing-IsClean : IsClean nothing
nothing-IsClean = record {
  chats_region = refl;
  class = refl;
  no_cdev = λ j. refl;
  no_device = λ j. refl;
  bus_region = refl;
  bus_cdev = refl;
  bus_device = refl;
}

-- The registrations when the chats have been added.
with_chats : Answers → Registered
with_chats answers =
    add_chats answers max_chats 0 record nothing { chats_region = true; class = true }

with_chats_rest :
    (answers : Answers)
    → IsBelow max_chats (with_chats answers)
      × ((with_chats answers).bus_region ≡ false)
      × ((with_chats answers).bus_cdev ≡ false)
      × ((with_chats answers).bus_device ≡ false)
unfolding with_chats
with_chats_rest answers =
    add_chats_rest answers max_chats max_chats 0 _ (omega arith)
      record { no_cdev = λ j far. refl; no_device = λ j far. refl }

-- The module loaded and, if that succeeds, unloaded.
abbrev pub load_unload : Answers → Registered
load_unload answers =
    let (err, reg) = telegram_init answers nothing in if err == 0 then telegram_exit reg else reg

-- Whatever the kernel answers, telegram_init leaves nothing registered if it fails, and telegram_exit leaves
-- nothing registered after an init that succeeded.
pub telegram_init-IsClean : (answers : Answers) → IsClean (load_unload answers)
unfolding telegram_init add_bus telegram_exit with_chats
telegram_init-IsClean answers =
    let (below, region, cdev, device) = with_chats_rest answers in
    elim (Bool-cases (answers.chats_region_error == 0)) [
      | inr no_region ↦ rw (no_region, no_region) nothing-IsClean
      | inl chats ↦ elim (Bool-cases (answers.class_error == 0)) [
        | inr no_class ↦ rw (chats, no_class, no_class) nothing-IsClean
        | inl class ↦ elim (Bool-cases (answers.bus_region_error == 0)) [
          | inr no_bus ↦
              rw (chats, class, no_bus, no_bus)
                (err_bus_region-IsClean (with_chats answers) below region cdev device)
          | inl bus ↦ elim (Bool-cases (answers.bus_cdev_error == 0)) [
            | inr no_cdev ↦
                rw (chats, class, bus, no_cdev, no_cdev)
                  (err_bus_region-IsClean (record (with_chats answers) { bus_region = false })
                    (record { no_cdev = below.no_cdev; no_device = below.no_device }) refl cdev
                    device)
            | inl ok ↦
                rw (chats, class, bus, ok)
                  (err_bus_region-IsClean
                    (record (with_chats answers) {
                      bus_region = false;
                      bus_cdev = false;
                      bus_device = false;
                    })
                    (record { no_cdev = below.no_cdev; no_device = below.no_device }) refl refl
                    refl)
          ]
        ]
      ]
    ]
