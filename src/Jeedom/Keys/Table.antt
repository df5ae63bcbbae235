-- ===== src/Jeedom/Keys/Table.antt =====
-- The rows of `canonicalCommandKey` of bridge/internal/jeedom/mapping.go.
use ajax_bridge.Prelude.{List, [], ◌∷◌, Bytes, codes}

-- The first switch of `canonicalCommandKey`.
unfoldable pub key_rows : List (List Bytes × Bytes)
key_rows =
    (codes "alimentationexterne" ∷ [], codes "externalpower")
    ∷ (
      codes "nombredefaut"
          ∷ codes "nombredefauts"
          ∷ codes "nombrededefaut"
          ∷ codes "nombrededefauts"
          ∷ codes "nombredeproblemes"
          ∷ codes "faultcount"
          ∷ codes "issuecount"
          ∷ codes "numberoffaults"
          ∷ codes "numberofissues"
          ∷ [],
      codes "issuecount",
    )
    ∷ (
      codes "carbondioxide"
          ∷ codes "co2"
          ∷ codes "co2concentration"
          ∷ codes "co2level"
          ∷ codes "dioxydedecarbone"
          ∷ codes "tauxdeco2"
          ∷ [],
      codes "co2",
    )
    ∷ (
      codes "firmware"
          ∷ codes "firmwareversion"
          ∷ codes "versionfirmware"
          ∷ codes "versiondufirmware"
          ∷ [],
      codes "firmwareversion",
    )
    ∷ (
      codes "mode"
          ∷ codes "modefonctionnement"
          ∷ codes "modedefonctionnement"
          ∷ codes "operatingmode"
          ∷ [],
      codes "operatingmode",
    )
    ∷ (
      codes "etatdefonctionnement"
          ∷ codes "etatdufonctionnement"
          ∷ codes "operatingstate"
          ∷ codes "operatingstatus"
          ∷ [],
      codes "operatingstate",
    )
    ∷ (
      codes "batterycheckstate"
          ∷ codes "batterycheckstatus"
          ∷ codes "controlebatterie"
          ∷ codes "etatcontrolebatterie"
          ∷ codes "etatducontroledebatterie"
          ∷ [],
      codes "batterycheckstatus",
    )
    ∷ (
      codes "datededernieremiseajour"
          ∷ codes "dernieremiseajour"
          ∷ codes "lastupdate"
          ∷ codes "lastupdated"
          ∷ codes "lastupdatetime"
          ∷ [],
      codes "lastupdate",
    )
    ∷ (
      codes "etatdelavanne"
          ∷ codes "etatvanne"
          ∷ codes "valveposition"
          ∷ codes "valvestate"
          ∷ codes "valvestatus"
          ∷ [],
      codes "valveposition",
    )
    ∷ (codes "alarmefumee" ∷ codes "smokealarm" ∷ [], codes "smokealarm")
    ∷ (
      codes "alarmefumeecritique" ∷ codes "criticalsmokealarm" ∷ codes "smokecriticalalarm" ∷ [],
      codes "criticalsmokealarm",
    )
    ∷ (
      codes "alarmetemperature" ∷ codes "heatalarm" ∷ codes "temperaturealarm" ∷ [],
      codes "heatalarm",
    )
    ∷ (
      codes "alarmehausserapidedetemperature"
          ∷ codes "rapidtemperatureincreasealarm"
          ∷ codes "rapidtemperaturerisealarm"
          ∷ codes "rateofrisealarm"
          ∷ [],
      codes "rapidtemperaturerisealarm",
    )
    ∷ (
      codes "alarmeco" ∷ codes "carbonmonoxidealarm" ∷ codes "coalarm" ∷ [],
      codes "carbonmonoxidealarm",
    )
    ∷ (
      codes "alarmecocritique" ∷ codes "criticalcarbonmonoxidealarm" ∷ codes "criticalcoalarm" ∷ [],
      codes "criticalcarbonmonoxidealarm",
    )
    ∷ (
      codes "connexionradio"
          ∷ codes "etatconnexionradio"
          ∷ codes "etatdelaconnexionradio"
          ∷ codes "radioconnection"
          ∷ codes "radioconnectionstatus"
          ∷ codes "radiolink"
          ∷ codes "radiolinkstatus"
          ∷ codes "statutconnexionradio"
          ∷ [],
      codes "radioconnection",
    )
    ∷ (
      codes "connexioncanalphoto"
          ∷ codes "connexionducanalphoto"
          ∷ codes "etatconnexioncanalphoto"
          ∷ codes "etatdelaconnexionducanalphoto"
          ∷ codes "photochannelconnection"
          ∷ codes "photochannelconnectionstatus"
          ∷ codes "photochannelstatus"
          ∷ [],
      codes "photochannelconnection",
    )
    ∷ (
      codes "niveaudusignalducanalphoto"
          ∷ codes "niveausignalcanalphoto"
          ∷ codes "photochannelsignal"
          ∷ codes "photochannelsignalstrength"
          ∷ codes "signalcanalphoto"
          ∷ codes "signalducanalphoto"
          ∷ [],
      codes "photochannelsignal",
    )
    ∷ (
      codes "activationethernet"
          ∷ codes "ethernet"
          ∷ codes "ethernetactive"
          ∷ codes "ethernetactif"
          ∷ codes "ethernetenabled"
          ∷ codes "etatethernet"
          ∷ [],
      codes "ethernetenabled",
    )
    ∷ (
      codes "connexionethernet"
          ∷ codes "ethernetconnected"
          ∷ codes "ethernetconnection"
          ∷ codes "ethernetconnectionstatus"
          ∷ codes "ethernetlink"
          ∷ codes "ethernetlinkstatus"
          ∷ codes "ethernetstatus"
          ∷ codes "etatconnexionethernet"
          ∷ codes "etatdelaconnexionethernet"
          ∷ [],
      codes "ethernetconnected",
    )
    ∷ (
      codes "antennejeweller"
          ∷ codes "etatantennejeweller"
          ∷ codes "etatdelantennejeweller"
          ∷ codes "etatdesantennesjeweller"
          ∷ codes "jewellerantenna"
          ∷ codes "jewellerantennastate"
          ∷ codes "jewellerantennastatus"
          ∷ codes "statutantennejeweller"
          ∷ codes "statutdelantennejeweller"
          ∷ [],
      codes "jewellerantennastatus",
    )
    ∷ (
      codes "antennewings"
          ∷ codes "etatantennewings"
          ∷ codes "etatdelantennewings"
          ∷ codes "etatdesantenneswings"
          ∷ codes "statutantennewings"
          ∷ codes "statutdelantennewings"
          ∷ codes "wingsantenna"
          ∷ codes "wingsantennastate"
          ∷ codes "wingsantennastatus"
          ∷ [],
      codes "wingsantennastatus",
    )
    ∷ (
      codes "batterycharging"
          ∷ codes "batterieencharge"
          ∷ codes "chargementencours"
          ∷ codes "encharge"
          ∷ codes "ischarging"
          ∷ [],
      codes "batterycharging",
    )
    ∷ (
      codes "batteryfailure"
          ∷ codes "batteryfault"
          ∷ codes "batterymalfunction"
          ∷ codes "defautbatterie"
          ∷ codes "defautdelabatterie"
          ∷ codes "pannebatterie"
          ∷ [],
      codes "batteryfault",
    )
    ∷ (
      codes "defautalimentationdetecteur"
          ∷ codes "defautdalimentationdudetecteur"
          ∷ codes "detectorpowerfault"
          ∷ codes "detectorpowersupplyfault"
          ∷ codes "detectorsupplyfault"
          ∷ [],
      codes "detectorpowerfault",
    )
    ∷ (
      codes "defautalimentationincendie"
          ∷ codes "defautalimentationdetecteurincendie"
          ∷ codes "defautdalimentationdudetecteurincendie"
          ∷ codes "defautdalimentationdesdetecteursdincendie"
          ∷ codes "firedetectorpowerfault"
          ∷ codes "firedetectorpowersupplyfault"
          ∷ codes "firedetectorsupplyfault"
          ∷ [],
      codes "firedetectorpowerfault",
    )
    ∷ (
      codes "detectorpowerundervoltage"
          ∷ codes "detectorpowersupplyundervoltage"
          ∷ codes "detectorundervoltage"
          ∷ codes "soustensionalimentationdetecteur"
          ∷ codes "soustensiondetecteur"
          ∷ codes "soustensiondudetecteur"
          ∷ [],
      codes "detectorpowerundervoltage",
    )
    ∷ (
      codes "firedetectorpowerundervoltage"
          ∷ codes "firedetectorpowersupplyundervoltage"
          ∷ codes "firedetectorundervoltage"
          ∷ codes "soustensionalimentationdetecteurincendie"
          ∷ codes "soustensiondetecteurincendie"
          ∷ codes "soustensiondudetecteurincendie"
          ∷ [],
      codes "firedetectorpowerundervoltage",
    )
    ∷ (
      codes "etatdutestdalimentationfibra"
          ∷ codes "fibrapowertest"
          ∷ codes "fibrapowersupplytest"
          ∷ codes "testalimentationfibra"
          ∷ codes "testdalimentationfibra"
          ∷ [],
      codes "fibrapowertest",
    )
    ∷ (
      codes "chargerfailure"
          ∷ codes "chargerfault"
          ∷ codes "defautchargeur"
          ∷ codes "defautduchargeur"
          ∷ codes "pannechargeur"
          ∷ [],
      codes "chargerfault",
    )
    ∷ (
      codes "chargerfaultlist"
          ∷ codes "chargerfaults"
          ∷ codes "defautschargeur"
          ∷ codes "defautsduchargeur"
          ∷ codes "listedesdefautsduchargeur"
          ∷ [],
      codes "chargerfaults",
    )
    ∷ (
      codes "batteryandchargerfaults"
          ∷ codes "batterychargerfaultlist"
          ∷ codes "batterychargerfaults"
          ∷ codes "listedesdefautsdelabatterieetduchargeur"
          ∷ codes "listedesdefautsdelabatterieduchargeur"
          ∷ [],
      codes "batterychargerfaults",
    )
    ∷ (
      codes "datachannelstate"
          ∷ codes "datachannelstatus"
          ∷ codes "etatcanaldedonnees"
          ∷ codes "etatducanaldedonnees"
          ∷ codes "statutcanaldedonnees"
          ∷ codes "statutducanaldedonnees"
          ∷ [],
      codes "datachannelstatus",
    )
    ∷ (
      codes "datachannelsignal"
          ∷ codes "niveaudusignalducanaldedonnees"
          ∷ codes "niveausignalcanaldedonnees"
          ∷ codes "signalcanaldedonnees"
          ∷ codes "signalducanaldedonnees"
          ∷ [],
      codes "datachannelsignal",
    )
    ∷ (
      codes "detectorpowerstate"
          ∷ codes "detectorpowersupplystate"
          ∷ codes "detectorsupplystate"
          ∷ codes "detectorsupplystatus"
          ∷ codes "etatalimentationdetecteur"
          ∷ codes "etatdelalimentationdudetecteur"
          ∷ [],
      codes "detectorsupplystate",
    )
    ∷ (
      codes "etatdelalimentationdudetecteurincendie"
          ∷ codes "etatalimentationdetecteurincendie"
          ∷ codes "firedetectorpowerstate"
          ∷ codes "firedetectorpowersupplystate"
          ∷ codes "firedetectorsupplystate"
          ∷ codes "firedetectorsupplystatus"
          ∷ [],
      codes "firedetectorsupplystate",
    )
    ∷ []
